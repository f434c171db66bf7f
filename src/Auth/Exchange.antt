-- ===== src/Auth/Exchange.antt =====
-- What a caller of `POST /auth/token` has shown.
use rollhook.Prelude.{
  ℕ, true, false, ◌||◌, Option, none, some, List, [], ◌∷◌, ◌++◌, Result, ok, err, ◌≡◌, ◌≢◌, ◌⊎◌,
  refl, ap, Bool-cases, inl, inr, arith,
}
use rollhook.Text.{Bytes, codes, beq, split, trim_space, has_prefix, contains}
use rollhook.Text.Equality.{beq-cases}
use rollhook.Effect.{Err, service_not_found, attempt, pure, ◌>>=◌}
use rollhook.Docker.{Docker}
use rollhook.Registry.{Crypto, mint_registry_token}
use rollhook.Discover.{Labels, DiscoveryResult, discover}
use rollhook.Auth.{
  Claims, lists, allowed_repos, allowed_refs, LabelError, check_ref, check_oidc_labels, granted,
  checked, discovered, exchange_name, post_auth_token,
}

-- One of the parts of a list with commas is the text, but for spaces around it.
abbrev pub Named : Bytes → List Bytes → Type 0
Named s parts =
    (before : List Bytes) × (p : Bytes) × (after : List Bytes) × (parts ≡ before ++ p ∷ after)
    × (trim_space p ≡ s)

lists-Named : (s : Bytes) (parts : List Bytes) → lists s parts ≡ true → Named s parts
unfolding lists
lists-Named s [] h = ground (arith, h)
lists-Named s (p ∷ ps) h = elim (beq-cases (trim_space p) s) [
  | inl (_, e) ↦ ([], p, ps, refl, e)
  | inr (b, _) ↦
      let (before, q, after, split_at, e) = lists-Named s ps (ground (arith, h, b)) in
      (p ∷ before, q, after, ap (◌∷◌ p) split_at, e)
]

-- A ref that the label `rollhook.allowed_refs` allows: one of its parts, or without the label the
-- main branch by either name.
abbrev pub AllowedRef : Bytes → Bytes → Type 0
AllowedRef refs ref =
    ((refs ≡ []) × ((ref ≡ codes "refs/heads/main") ⊎ (ref ≡ codes "refs/heads/master")))
    ⊎ ((refs ≢ []) × Named ref (split b',' refs))

check_ref-AllowedRef : (refs ref : Bytes) → check_ref refs ref ≡ ok tt → AllowedRef refs ref
unfolding check_ref
check_ref-AllowedRef refs ref h = elim (beq-cases refs []) [
  | inl (b, e) ↦ elim (beq-cases ref (codes "refs/heads/main")) [
    | inl (_, m) ↦ inl (e, inl m)
    | inr (m, _) ↦ elim (beq-cases ref (codes "refs/heads/master")) [
      | inl (_, n) ↦ inl (e, inr n)
      | inr (n, _) ↦ ground (arith, h, b, m, n)
    ]
  ]
  | inr (b, ne) ↦ elim (Bool-cases (lists ref (split b',' refs))) [
    | inl l ↦ inr (ne, lists-Named ref _ l)
    | inr l ↦ ground (arith, h, b, l)
  ]
]

-- Claims pass the labels of a service only if the service names the repository, and if the ref is
-- one that the service names, or the main branch where it names none.
pub check_oidc_labels-ok :
    (claims : Claims) (labels : Labels)
    → check_oidc_labels claims labels ≡ ok tt
    → Named claims.repository (split b',' (allowed_repos labels))
      × AllowedRef (allowed_refs labels) claims.ref
unfolding check_oidc_labels
check_oidc_labels-ok claims labels h = elim (Bool-cases (beq (allowed_repos labels) [])) [
  | inl b ↦ ground (arith, h, b)
  | inr b ↦ elim (Bool-cases (lists claims.repository (split b',' (allowed_repos labels)))) [
    | inr l ↦ ground (arith, h, b, l)
    | inl l ↦ (
      lists-Named claims.repository _ l,
      check_ref-AllowedRef (allowed_refs labels) claims.ref (ground (arith, h, b, l)),
    )
  ]
]

module _ {W : Type 0} (cli : Docker W) (crypto : Crypto) where
  discovered-granted :
      (now : ℕ) (secret name token shown : Bytes) (claims : Claims)
      (answer : Result Err DiscoveryResult)
      → discovered cli crypto now secret name claims answer ≡ granted token shown
      → (d : DiscoveryResult) × (answer ≡ ok d)
        × (check_oidc_labels claims d.labels ≡ ok tt)
        × (token ≡ mint_registry_token crypto now secret name)
        × (shown ≡ secret)
  unfolding discovered checked
  discovered-granted now secret name token shown claims (err (service_not_found _)) h =
      ground (arith, h)
  discovered-granted now secret name token shown claims (err _) h = ground (arith, h)
  discovered-granted now secret name token shown claims (ok d) h =
      by_labels (check_oidc_labels claims d.labels) refl h
    where
      by_labels :
          (r : Result LabelError (Unit {0}))
          → check_oidc_labels claims d.labels ≡ r
          → checked cli crypto now secret name claims d.labels r ≡ granted token shown
          → (d' : DiscoveryResult) × (Path (Result Err DiscoveryResult) (ok d) (ok d'))
            × (check_oidc_labels claims d'.labels ≡ ok tt)
            × (token ≡ mint_registry_token crypto now secret name)
            × (shown ≡ secret)
      by_labels (ok _) e g = (d, refl, e, cc, cc)
      by_labels (err _) e g = ground (arith, g)

  -- The registry token and the secret are given only to a caller with verified claims, whose ref is
  -- no pull request's, for a running service whose labels allow the claims; and the token is the
  -- one for the image name without its outer spaces.
  pub post_auth_token-granted :
      (now : ℕ) (secret name token shown : Bytes) (claims : Option Claims) (w : W)
      → (post_auth_token cli crypto now secret claims name w).0 ≡ ok (granted token shown)
      → (c : Claims) × (claims ≡ some c)
        × (has_prefix (codes "refs/pull/") c.ref ≡ false)
        × (d : DiscoveryResult) × ((discover cli (trim_space name ++ codes ":latest") w).0 ≡ ok d)
        × (check_oidc_labels c d.labels ≡ ok tt)
        × (token ≡ mint_registry_token crypto now secret (trim_space name))
        × (shown ≡ secret)
  unfolding post_auth_token exchange_name pure attempt ◌>>=◌
  post_auth_token-granted now secret name token shown none w h = ground (arith, h)
  post_auth_token-granted now secret name token shown (some c) w h =
      elim (Bool-cases (has_prefix (codes "refs/pull/") c.ref)) [
        | inl p ↦ ground (arith, h, p)
        | inr p ↦
            elim (Bool-cases (beq (trim_space name) [] || contains (codes ":") (trim_space name))) [
              | inl b ↦ ground (arith, h, p, b)
              | inr b ↦
                  let g : discovered cli crypto now secret (trim_space name) c
                        (discover cli (trim_space name ++ codes ":latest") w).0
                      ≡ granted token shown =
                    ground (arith, h, p, b) in
                  let (d, e, l, t, s) =
                    discovered-granted now secret (trim_space name) token shown c _ g in
                  (c, refl, p, d, e, l, t, s)
            ]
      ]
