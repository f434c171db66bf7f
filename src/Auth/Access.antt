-- ===== src/Auth/Access.antt =====
-- Which requests the middleware lets through.
use rollhook.Prelude.{
  true, Option, none, some, ◌++◌, if◌then◌else◌, ◌≡◌, ◌⊎◌, refl, ap, Bool-cases, Option-cases, inl,
  inr, arith,
}
use rollhook.Text.{Bytes, codes, beq, cut_prefix}
use rollhook.Text.Equality.{beq-cases}
use rollhook.Text.Index.{cut_prefix-append, cut_prefix-eq_some}
use rollhook.Auth.{
  Claims, Request, refused, passed, is_jwt, check_secret, verified, check_jwt, check_token,
  huma_auth, require_auth,
}

-- Why a token may pass, with these claims in the context.
abbrev pub MayPass : Option (Bytes → Option Claims) → Bytes → Bytes → Bytes → Option Claims → Type 0
MayPass verifier secret operation_id token claims =
    ((token ≡ secret) × (claims ≡ none))
    ⊎ ((operation_id ≡ codes "post-auth-token")
        × (is_jwt token ≡ true)
        × (verify : Bytes → Option Claims) × (verifier ≡ some verify)
        × (c : Claims) × (verify token ≡ some c)
        × (claims ≡ some c))

check_secret-passed :
    (secret token : Bytes) (claims : Option Claims)
    → check_secret secret token ≡ passed claims
    → (token ≡ secret) × (claims ≡ none)
unfolding check_secret
check_secret-passed secret token claims h = elim (beq-cases token secret) [
  | inl (b, e) ↦ (e, ground (arith, h, b))
  | inr (b, _) ↦ ground (arith, h, b)
]

check_jwt-passed :
    (verify : Bytes → Option Claims) (operation_id token : Bytes) (claims : Option Claims)
    → check_jwt verify operation_id token ≡ passed claims
    → (operation_id ≡ codes "post-auth-token")
      × (c : Claims) × (verify token ≡ some c)
      × (claims ≡ some c)
unfolding check_jwt verified
check_jwt-passed verify operation_id token claims h =
    elim (beq-cases operation_id (codes "post-auth-token")) [
      | inr (b, _) ↦ ground (arith, h, b)
      | inl (b, e) ↦ elim (Option-cases (verify token)) [
        | inl v ↦ ground (arith, h, b, v)
        | inr (c, v) ↦ (e, c, v, ground (arith, h, b, v))
      ]
    ]

check_token-MayPass :
    (verifier : Option (Bytes → Option Claims)) (secret operation_id token : Bytes)
    (claims : Option Claims)
    → check_token verifier secret operation_id token ≡ passed claims
    → MayPass verifier secret operation_id token claims
unfolding check_token
check_token-MayPass none secret operation_id token claims h =
    inl (check_secret-passed secret token claims h)
check_token-MayPass (some verify) secret operation_id token claims h =
    elim (Bool-cases (is_jwt token)) [
      | inr j ↦ inl (check_secret-passed secret token claims (ground (arith, h, j)))
      | inl j ↦
          let (op, c, v, e) =
            check_jwt-passed verify operation_id token claims (ground (arith, h, j)) in
          inr (op, j, verify, refl, c, v, e)
    ]

-- A request to a secured operation reaches its handler only with a bearer token that is the secret,
-- and then without claims, or that looks like a JWT, is sent to `POST /auth/token` and is taken by
-- the verifier, and then with the verified claims.
pub huma_auth-MayPass :
    (verifier : Option (Bytes → Option Claims)) (secret : Bytes) (r : Request)
    (claims : Option Claims)
    → r.is_secured ≡ true
    → huma_auth verifier secret r ≡ passed claims
    → (token : Bytes) × (r.authorization ≡ codes "Bearer " ++ token)
      × MayPass verifier secret r.operation_id token claims
unfolding huma_auth
huma_auth-MayPass verifier secret r claims secured h =
    elim (Option-cases (cut_prefix (codes "Bearer ") r.authorization)) [
      | inl c ↦ ground (arith, h, secured, c)
      | inr (token, c) ↦ (
        token,
        cut_prefix-eq_some (codes "Bearer ") r.authorization token c,
        check_token-MayPass verifier secret r.operation_id token claims
            (ground (arith, h, secured, c)),
      )
    ]

-- The SSE route lets exactly the requests through whose header is "Bearer " and the secret; it
-- refuses a header without that scheme with 401 and a wrong token with 403.
pub require_auth-eq :
    (secret token : Bytes)
    → (require_auth secret (codes "Bearer " ++ token)
        ≡ (if beq token secret then passed none else refused 403))
      × ((header : Bytes)
          → cut_prefix (codes "Bearer ") header ≡ none
          → require_auth secret header ≡ refused 401)
unfolding require_auth check_secret
require_auth-eq secret token = (
  ap
      (λ o. elim o [
        | none ↦ refused 401
        | some t ↦ if beq t secret then passed none else refused 403
      ])
      (cut_prefix-append (codes "Bearer ") token),
  λ header c.
      ap
        (λ o. elim o [
          | none ↦ refused 401
          | some t ↦ if beq t secret then passed none else refused 403
        ])
        c,
)
