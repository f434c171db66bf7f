-- ===== src/Registry/Paths.antt =====
-- The repository that `extractRepoFromPath` reads from the paths of the distribution API.
use rollhook.Prelude.{
  ℕ, ◌+◌, ◌≤◌, Bool, true, false, ◌||◌, Option, none, some, List, [], ◌∷◌, ◌++◌, if◌then◌else◌,
  arith, ◌≡◌, ◌≢◌, refl, sym, ap, ◌∙◌, All, ltb, not, Bool-cases, inl, inr,
}
use mathlib.Core.List.{reverse, reverse-append, reverse-reverse}
use rollhook.Text.{Bytes, Lacks, codes, beq, cut_prefix, split, join, trim_left, trim_right}
use rollhook.Text.Equality.{beq_self, beq_ne}
use rollhook.Text.Index.{cut_prefix-append}
use rollhook.Text.Split.{split-join}
use rollhook.Registry.{
  Crypto, is_slash, repo_of, segments, extract_repo_from_path, registry_token_ttl,
  mint_registry_token, validate_registry_token_for_repo, token_valid, basic_password, credential,
  validate_proxy_auth,
}
use rollhook.Registry.Tokens.{IsCodec, IsPrinted, validate_registry_token_for_repo-mint}

-- The segments that name an operation.
abbrev pub is_operation : Bytes → Bool
is_operation p =
    beq p (codes "manifests")
    || beq p (codes "tags")
    || beq p (codes "referrers")
    || beq p (codes "blobs")

-- What stands behind a repository: an operation with its reference, or the upload of a blob, begun
-- or going on. The reference, or the identifier of the upload, is none of the five words that the
-- scan looks for.
pub data IsRoute : List Bytes → Type 0 where
  by_reference :
      (op ref : Bytes)
      → is_operation op ≡ true
      → is_operation ref ≡ false
      → ref ≢ codes "uploads"
      → IsRoute (op ∷ ref ∷ [])
  begin_upload : IsRoute (codes "blobs" ∷ codes "uploads" ∷ [])
  upload :
      (uuid : Bytes)
      → is_operation uuid ≡ false
      → uuid ≢ codes "uploads"
      → IsRoute (codes "blobs" ∷ codes "uploads" ∷ uuid ∷ [])

repo_of-operation :
    (op : Bytes) (ps : List Bytes)
    → is_operation op ≡ true
    → repo_of (op ∷ ps) ≡ join b'/' (reverse ps)
unfolding repo_of
repo_of-operation op ps h = rw h refl

repo_of-reference :
    (ref : Bytes) (ps : List Bytes)
    → is_operation ref ≡ false
    → ref ≢ codes "uploads"
    → repo_of (ref ∷ ps) ≡ repo_of ps
unfolding repo_of
repo_of-reference ref ps h ne = rw (h, beq_ne ref (codes "uploads") ne) refl

repo_of-uploads :
    (ps : List Bytes) → repo_of (codes "uploads" ∷ codes "blobs" ∷ ps) ≡ join b'/' (reverse ps)
unfolding repo_of beq
repo_of-uploads ps = refl

repo_of-route :
    (ps tail : List Bytes) → IsRoute tail → repo_of (reverse tail ++ reverse ps) ≡ join b'/' ps
repo_of-route ps _ (by_reference op ref o r ne) =
    repo_of-reference ref (op ∷ reverse ps) r ne
    ∙ repo_of-operation op (reverse ps) o
    ∙ ap (join b'/') (reverse-reverse ps)
repo_of-route ps _ begin_upload = repo_of-uploads (reverse ps) ∙ ap (join b'/') (reverse-reverse ps)
repo_of-route ps _ (upload uuid r ne) =
    repo_of-reference uuid (codes "uploads" ∷ codes "blobs" ∷ reverse ps) r ne
    ∙ repo_of-uploads (reverse ps)
    ∙ ap (join b'/') (reverse-reverse ps)

-- The path without its prefix and without slashes at its ends.
abbrev pub Trims : Bytes → List Bytes → Type 0
Trims rest parts = trim_right is_slash (trim_left is_slash rest) ≡ join b'/' parts

-- Of a path under `/v2/` that is, up to slashes at its ends, the segments of a repository and those
-- of an operation on it, the repository is read, whatever its segments are called; the reference
-- must not itself be the name of an operation.
pub extract_repo_from_path-route :
    (rest p : Bytes) (ps tail : List Bytes)
    → Trims rest (p ∷ (ps ++ tail))
    → All (Lacks b'/') (p ∷ (ps ++ tail))
    → IsRoute tail
    → extract_repo_from_path (codes "/v2/" ++ rest) ≡ join b'/' (p ∷ ps)
unfolding extract_repo_from_path segments
extract_repo_from_path-route rest p ps tail trims lacks route =
    ap (elim_rest) (cut_prefix-append (codes "/v2/") rest)
    ∙ ap (λ s. repo_of (reverse (split b'/' s))) trims
    ∙ ap (λ l. repo_of (reverse l)) (split-join b'/' p (ps ++ tail) lacks)
    ∙ ap repo_of (reverse-append (p ∷ ps) tail)
    ∙ repo_of-route (p ∷ ps) tail route
  where
    elim_rest : Option Bytes → Bytes
    elim_rest o = elim o [ none ↦ [] | some r ↦ repo_of (reverse (segments r)) ]

join-ne-nil : (p : Bytes) (ps : List Bytes) → p ≢ [] → join b'/' (p ∷ ps) ≢ []
unfolding join
join-ne-nil p [] ne h = ne h
join-ne-nil [] (q ∷ ps) ne h = ne refl
join-ne-nil (x ∷ p) (q ∷ ps) ne h = cc

module _ (crypto : Crypto) where
  credential-bearer : (token : Bytes) → credential crypto (codes "Bearer " ++ token) ≡ some token
  unfolding credential
  credential-bearer token =
      ap
        (λ o. elim o [
          | some bearer ↦ some bearer
          | none ↦ elim (cut_prefix (codes "Basic ") (codes "Bearer " ++ token)) [
            | some basic ↦ basic_password crypto basic
            | none ↦ none
          ]
        ])
        (cut_prefix-append (codes "Bearer ") token)

  token_valid-repo :
      (now : ℕ) (secret path token : Bytes)
      → extract_repo_from_path path ≢ []
      → validate_registry_token_for_repo crypto now secret token (extract_repo_from_path path)
        ≡ true
      → token_valid crypto now secret path token ≡ true
  unfolding token_valid
  token_valid-repo now secret path token ne h = elim (Bool-cases (beq token secret)) [
    | inl b ↦ rw b refl
    | inr b ↦ ground (arith, h, b, beq_ne (extract_repo_from_path path) [] ne)
  ]

  validate_proxy_auth-credential :
      (now : ℕ) (secret path header token : Bytes)
      → header ≢ []
      → credential crypto header ≡ some token
      → token_valid crypto now secret path token ≡ true
      → validate_proxy_auth crypto now secret path header ≡ true
  unfolding validate_proxy_auth
  validate_proxy_auth-credential now secret path header token ne c h =
      rw (validate_proxy_auth, beq_ne header [] ne, c) h

  -- A token that was minted for a repository opens the proxy, as a bearer credential, on each path
  -- of an operation on that repository whose reference or upload is not called manifests, tags,
  -- referrers, blobs or uploads, until its 15 minutes are over. Base64 reads back what it wrote,
  -- the code is hex, and the expiry is printed in the digits that it is read from.
  pub validate_proxy_auth-mint :
      (now later : ℕ) (secret rest p : Bytes) (ps tail : List Bytes)
      → IsCodec crypto
      → IsPrinted crypto (now + registry_token_ttl)
      → later ≤ now + registry_token_ttl
      → p ≢ []
      → Trims rest (p ∷ (ps ++ tail))
      → All (Lacks b'/') (p ∷ (ps ++ tail))
      → IsRoute tail
      → validate_proxy_auth crypto later secret
          (codes "/v2/" ++ rest)
          (codes "Bearer " ++ mint_registry_token crypto now secret (join b'/' (p ∷ ps)))
        ≡ true
  validate_proxy_auth-mint now later secret rest p ps tail codec printed fresh named trims lacks
        route =
      let repo = join b'/' (p ∷ ps) in
      let read = extract_repo_from_path-route rest p ps tail trims lacks route in
      validate_proxy_auth-credential later secret (codes "/v2/" ++ rest) _ _ (λ h. cc)
        (credential-bearer (mint_registry_token crypto now secret repo))
        (token_valid-repo later secret (codes "/v2/" ++ rest) _
          (λ h. join-ne-nil p ps named (sym read ∙ h))
          (ap (validate_registry_token_for_repo crypto later secret _) read
            ∙ validate_registry_token_for_repo-mint crypto now later secret repo repo codec printed
                (join-ne-nil p ps named)
            ∙ ap (λ b. if b then not (ltb (now + registry_token_ttl) later) else false)
                (beq_self repo)
            ∙ ground arith))
