-- ===== src/Auth/Verifier.antt =====
-- internal/oidc/verifier.go: `New` and `Verify` over the OIDC library, which is a parameter, and
-- the whole path of `POST /auth/token` behind the middleware.
use rollhook.Prelude.{
  Bool, true, false, Option, none, some, List, [], ◌∷◌, ◌++◌, Result, ok, err, if◌then◌else◌, arith,
  ◌≡◌, ◌≢◌, refl, ap, sym, ◌∙◌, Option-cases, inl, inr,
}
use rollhook.Text.{Bytes, codes, beq}
use rollhook.Text.Equality.{beq-cases}
use rollhook.Auth.{Claims}

-- The fields of `coreidc.Config` that the program sets.
pub record OidcConfig : Type 0 where
  pub skip_client_id_check : Bool
  pub client_id : Bytes

-- The library: `NewProvider` of an issuer, `Verify` of a provider's verifier, and what a verified
-- token says: `Claims` into the program's structure, and `Audience`.
pub record OidcLibrary (P T : Type 0) : Type 0 where
  pub new_provider : Bytes → Option P
  pub verify : P → OidcConfig → Bytes → Option T
  pub token_claims : T → Option Claims
  pub audience : T → List Bytes

-- One of the elements.
abbrev pub IsAmong : Bytes → List Bytes → Type 0
IsAmong x xs = (before : List Bytes) × (after : List Bytes) × (xs ≡ before ++ x ∷ after)

-- The documentation of `Config.ClientID`: the expected audience of the token, unless the check is
-- skipped.
abbrev pub AudienceLaw : {P T : Type 0} → OidcLibrary P T → Type 0
AudienceLaw {P} {T} lib =
    (p : P) (cfg : OidcConfig) (raw : Bytes) (t : T)
    → lib.verify p cfg raw ≡ some t
    → cfg.skip_client_id_check ≡ false
    → IsAmong cfg.client_id (lib.audience t)

pub data VerifyError : Type 0 where
  not_verified no_claims : VerifyError

-- The issuer and the configuration of `New`.
unfoldable pub issuer : (Bytes → Bytes) → Bytes
issuer getenv =
    if beq (getenv (codes "ROLLHOOK_OIDC_ISSUER")) []
    then codes "https://token.actions.githubusercontent.com"
    else getenv (codes "ROLLHOOK_OIDC_ISSUER")

unfoldable pub verifier_config : (Bytes → Bytes) → OidcConfig
verifier_config getenv =
    if beq (getenv (codes "ROLLHOOK_URL")) []
    then record { skip_client_id_check = true; client_id = [] }
    else record { skip_client_id_check = false; client_id = getenv (codes "ROLLHOOK_URL") }

module _ {P T : Type 0} (lib : OidcLibrary P T) where
  unfoldable pub claims_of : Option T → Result VerifyError Claims
  claims_of none = err not_verified
  claims_of (some t) = elim (lib.token_claims t) [ none ↦ err no_claims | some c ↦ ok c ]

  -- `Verify`
  unfoldable pub verify_token : P → OidcConfig → Bytes → Result VerifyError Claims
  unfolding claims_of
  verify_token p cfg raw = claims_of (lib.verify p cfg raw)

  -- `claims, err := verifier.Verify(…)` of the middleware, which answers every error alike.
  unfoldable pub accepts : P → OidcConfig → Bytes → Option Claims
  unfolding verify_token
  accepts p cfg raw = elim (verify_token p cfg raw) [ err _ ↦ none | ok c ↦ some c ]

  -- `New`, and what `main` makes of it: without a provider OIDC is disabled.
  unfoldable pub new_verifier : (Bytes → Bytes) → Option (Bytes → Option Claims)
  unfolding accepts issuer verifier_config
  new_verifier getenv = elim (lib.new_provider (issuer getenv)) [
    | none ↦ none
    | some p ↦ some (accepts p (verifier_config getenv))
  ]

  -- What a request has shown whose token was taken with these claims.
  abbrev pub IsVerified : (Bytes → Bytes) → Bytes → Claims → Type 0
  IsVerified getenv raw c =
      (p : P) × (t : T) × (lib.new_provider (issuer getenv) ≡ some p)
      × (lib.verify p (verifier_config getenv) raw ≡ some t)
      × (lib.token_claims t ≡ some c)
      × (getenv (codes "ROLLHOOK_URL") ≢ []
          → IsAmong (getenv (codes "ROLLHOOK_URL")) (lib.audience t))

  pub accepts-eq_some :
      (p : P) (cfg : OidcConfig) (raw : Bytes) (c : Claims)
      → accepts p cfg raw ≡ some c
      → (t : T) × (lib.verify p cfg raw ≡ some t) × (lib.token_claims t ≡ some c)
  unfolding accepts verify_token claims_of
  accepts-eq_some p cfg raw c h = elim (Option-cases (lib.verify p cfg raw)) [
    | inl v ↦ ground (arith, h, v)
    | inr (t, v) ↦ elim (Option-cases (lib.token_claims t)) [
      | inl k ↦ ground (arith, h, v, k)
      | inr (d, k) ↦ (t, v, k ∙ ground (arith, h, v, k))
    ]
  ]

  pub new_verifier-eq_some :
      (getenv : Bytes → Bytes) (f : Bytes → Option Claims)
      → new_verifier getenv ≡ some f
      → (p : P) × (lib.new_provider (issuer getenv) ≡ some p)
        × (f ≡ accepts p (verifier_config getenv))
  unfolding new_verifier
  new_verifier-eq_some getenv f h = elim (Option-cases (lib.new_provider (issuer getenv))) [
    | inl n ↦ ground (arith, h, n)
    | inr (p, n) ↦ (p, n, ground (arith, h, n))
  ]

  pub audience-url :
      AudienceLaw lib
      → (getenv : Bytes → Bytes) (p : P) (raw : Bytes) (t : T)
      → lib.verify p (verifier_config getenv) raw ≡ some t
      → getenv (codes "ROLLHOOK_URL") ≢ []
      → IsAmong (getenv (codes "ROLLHOOK_URL")) (lib.audience t)
  unfolding verifier_config
  audience-url law getenv p raw t v set = elim (beq-cases (getenv (codes "ROLLHOOK_URL")) []) [
    | inl (_, e) ↦ absurd (set e)
    | inr (b, _) ↦
        law p (record { skip_client_id_check = false; client_id = getenv (codes "ROLLHOOK_URL") })
          raw t
          (sym (
              ap
                (λ x.
                  lib.verify p
                    (if x then record { skip_client_id_check = true; client_id = [] } else record {
                      skip_client_id_check = false;
                      client_id = getenv (codes "ROLLHOOK_URL");
                    })
                    raw)
                b)
            ∙ v)
          refl
  ]
