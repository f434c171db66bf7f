-- ===== src/Auth/Granted.antt =====
-- The whole path of `POST /auth/token`: the verifier of internal/oidc/verifier.go, the middleware
-- of internal/middleware/huma_auth.go, and the handler of internal/api/auth.go.
use rollhook.Prelude.{
  ℕ, true, false, Option, none, some, ◌++◌, ok, arith, ◌≡◌, refl, ap, sym, ◌∙◌, inl, inr,
}
use rollhook.Text.{Bytes, codes, has_prefix, split, trim_space}
use rollhook.Effect.{Io, pure}
use rollhook.Docker.{Docker}
use rollhook.Registry.{Crypto, mint_registry_token}
use rollhook.Discover.{DiscoveryResult, discover}
use rollhook.Auth.{
  Claims, Request, Verdict, refused, passed, huma_auth, Exchanged, denied, granted, post_auth_token,
  allowed_repos, allowed_refs,
}
use rollhook.Auth.Access.{MayPass, huma_auth-MayPass}
use rollhook.Auth.Exchange.{Named, AllowedRef, check_oidc_labels-ok, post_auth_token-granted}
use rollhook.Auth.Verifier.{
  OidcLibrary, IsVerified, AudienceLaw, verifier_config, accepts, new_verifier, accepts-eq_some,
  new_verifier-eq_some, audience-url,
}

-- The operation of `RegisterAuthToken`, asked with this header.
unfoldable pub auth_token_request : Bytes → Request
auth_token_request authorization = record {
  is_secured = true;
  operation_id = codes "post-auth-token";
  authorization = authorization;
}

module _ {W : Type 0} (cli : Docker W) (crypto : Crypto) where
  -- `next(ctx)`, or the refusal of the middleware.
  unfoldable pub handled : ℕ → Bytes → Bytes → Verdict → Io W Exchanged
  handled now secret name (refused status) = pure (denied status)
  handled now secret name (passed claims) = post_auth_token cli crypto now secret claims name

  handled-granted :
      (now : ℕ) (secret name token shown : Bytes) (v : Verdict) (w : W)
      → (handled now secret name v w).0 ≡ ok (granted token shown)
      → (claims : Option Claims) × (v ≡ passed claims)
        × ((post_auth_token cli crypto now secret claims name w).0 ≡ ok (granted token shown))
  unfolding handled pure
  handled-granted now secret name token shown (refused status) w h = ground (arith, h)
  handled-granted now secret name token shown (passed claims) w h = (claims, refl, h)

  module _ {P T : Type 0} (lib : OidcLibrary P T) where
    -- A request with this header and image name, on a server with this environment.
    unfoldable pub serve_auth_token : (Bytes → Bytes) → ℕ → Bytes → Bytes → Bytes → Io W Exchanged
    unfolding handled auth_token_request
    serve_auth_token getenv now secret authorization name =
        handled now secret name
          (huma_auth (new_verifier lib getenv) secret (auth_token_request authorization))

    MayPass-IsVerified :
        AudienceLaw lib
        → (getenv : Bytes → Bytes) (secret operation_id raw : Bytes) (claims : Option Claims)
          (c : Claims)
        → claims ≡ some c
        → MayPass (new_verifier lib getenv) secret operation_id raw claims
        → IsVerified lib getenv raw c
    MayPass-IsVerified law getenv secret operation_id raw claims c e (inl (_, n)) =
        let clash : Path (Option Claims) none (some c) = sym n ∙ e in ground (arith, clash)
    MayPass-IsVerified law getenv secret operation_id raw claims c e
          (inr (_, _, verify, is, d, v, f)) =
        let (p, made, same) = new_verifier-eq_some lib getenv verify is in
        let there : accepts lib p (verifier_config getenv) raw ≡ some c =
          ap (λ g. g raw) (sym same) ∙ v ∙ sym f ∙ e in
        let (t, taken, says) = accepts-eq_some lib p (verifier_config getenv) raw c there in
        (p, t, made, taken, says, audience-url lib law getenv p raw t taken)

    -- Where the library checks the audience as it documents, `POST /auth/token` gives the registry
    -- token and the secret only for a bearer token that the provider of the configured issuer took,
    -- for the audience `ROLLHOOK_URL` where that is set; its claims name a repository that the
    -- labels of the running service list and a ref that they allow, which is no pull request's; the
    -- registry token is the one for the image name.
    pub serve_auth_token-granted :
        AudienceLaw lib
        → (getenv : Bytes → Bytes) (now : ℕ) (secret authorization name token shown : Bytes) (w : W)
        → (serve_auth_token getenv now secret authorization name w).0 ≡ ok (granted token shown)
        → (raw : Bytes) × (authorization ≡ codes "Bearer " ++ raw)
          × (c : Claims) × IsVerified lib getenv raw c
          × (has_prefix (codes "refs/pull/") c.ref ≡ false)
          × (d : DiscoveryResult) × ((discover cli (trim_space name ++ codes ":latest") w).0 ≡ ok d)
          × Named c.repository (split b',' (allowed_repos d.labels))
          × AllowedRef (allowed_refs d.labels) c.ref
          × (token ≡ mint_registry_token crypto now secret (trim_space name))
          × (shown ≡ secret)
    unfolding serve_auth_token auth_token_request
    serve_auth_token-granted law getenv now secret authorization name token shown w h =
        let r = auth_token_request authorization in
        let (claims, through, g) =
          handled-granted now secret name token shown (huma_auth (new_verifier lib getenv) secret r)
            w h in
        let (raw, header, may) =
          huma_auth-MayPass (new_verifier lib getenv) secret r claims refl through in
        let (c, e, no_pull, d, found, labels, minted, key) =
          post_auth_token-granted cli crypto now secret name token shown claims w g in
        let (repo, ref) = check_oidc_labels-ok c d.labels labels in
        (
          raw,
          header,
          c,
          MayPass-IsVerified law getenv secret (codes "post-auth-token") raw claims c e may,
          no_pull,
          d,
          found,
          repo,
          ref,
          minted,
          key,
        )
