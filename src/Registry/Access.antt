-- ===== src/Registry/Access.antt =====
-- Which requests the registry's proxy lets through.
use rollhook.Prelude.{ℕ, true, ◌||◌, some, [], ◌≡◌, ◌⊎◌, Bool-cases, Option-cases, inl, inr, arith}
use rollhook.Text.{Bytes, codes, beq}
use rollhook.Text.Equality.{beq-cases}
use rollhook.Registry.{
  Crypto, Token, extract_repo_from_path, token_valid, credential, validate_proxy_auth,
}
use rollhook.Registry.Tokens.{
  Genuine, validate_registry_token-Genuine, validate_registry_token_for_repo-Genuine,
}

module _ (crypto : Crypto) where
  -- What makes a credential good for a path: it is the secret, or a genuine token of the path's
  -- repository, or any genuine token where the path is the ping.
  abbrev pub MayUse : ℕ → Bytes → Bytes → Bytes → Type 0
  MayUse now secret path token =
      (token ≡ secret)
      ⊎ ((t : Token) × Genuine crypto now secret token t
          × ((t.image_name ≡ extract_repo_from_path path)
              ⊎ ((path ≡ codes "/v2") ⊎ (path ≡ codes "/v2/"))))

  ping_path :
      (path : Bytes)
      → (beq path (codes "/v2") || beq path (codes "/v2/")) ≡ true
      → (path ≡ codes "/v2") ⊎ (path ≡ codes "/v2/")
  ping_path path h = elim (beq-cases path (codes "/v2")) [
    | inl (_, e) ↦ inl e
    | inr (b, _) ↦ elim (beq-cases path (codes "/v2/")) [
      | inl (_, e) ↦ inr e
      | inr (c, _) ↦ ground (arith, h, b, c)
    ]
  ]

  token_valid-MayUse :
      (now : ℕ) (secret path token : Bytes)
      → token_valid crypto now secret path token ≡ true
      → MayUse now secret path token
  unfolding token_valid
  token_valid-MayUse now secret path token h = elim (beq-cases token secret) [
    | inl (_, e) ↦ inl e
    | inr (b, _) ↦ elim (Bool-cases (beq (extract_repo_from_path path) [])) [
      | inr r ↦
          let (t, g, e) =
            validate_registry_token_for_repo-Genuine crypto now secret token _
              (ground (arith, h, b, r)) in
          inr (t, g, inl e)
      | inl r ↦ elim (Bool-cases (beq path (codes "/v2") || beq path (codes "/v2/"))) [
        | inl g ↦
            let (t, ok_token) =
              validate_registry_token-Genuine crypto now secret token
                (ground (arith, h, b, r, g)) in
            inr (t, ok_token, inr (ping_path path g))
        | inr g ↦ ground (arith, h, b, r, g)
      ]
    ]
  ]

  -- A request that the proxy forwards carries a credential that may use its path: the secret, or an
  -- unexpired token with the secret's code whose image name is the repository of the path, or any
  -- such token for a ping.
  pub validate_proxy_auth-MayUse :
      (now : ℕ) (secret path header : Bytes)
      → validate_proxy_auth crypto now secret path header ≡ true
      → (token : Bytes) × (credential crypto header ≡ some token) × MayUse now secret path token
  unfolding validate_proxy_auth
  validate_proxy_auth-MayUse now secret path header h = elim (beq-cases header []) [
    | inl (b, _) ↦ ground (arith, h, b)
    | inr (b, _) ↦ elim (Option-cases (credential crypto header)) [
      | inl c ↦ ground (arith, h, b, c)
      | inr (token, c) ↦
          (token, c, token_valid-MayUse now secret path token (ground (arith, h, b, c)))
    ]
  ]
