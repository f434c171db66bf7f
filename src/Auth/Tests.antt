-- ===== src/Auth/Tests.antt =====
-- Callers of the API, and the theorems at them.
use rollhook.Prelude.{
  true, false, ◌||◌, none, some, Option, List, [], ◌∷◌, ◌++◌, ok, if◌then◌else◌, ◌≡◌, refl, ap, sym,
  ◌∙◌, arith, inl, inr,
}
use rollhook.Text.{
  Bytes, codes, beq, split, trim_space, has_prefix, cut_prefix, contains, index, last_index,
}
use rollhook.Effect.{attempt, pure, call, ◌>>=◌, fail}
use rollhook.Image.{base_name, repo_from_ref}
use rollhook.Docker.{Docker, list_running_containers, inspect_container}
use rollhook.Discover.{
  DiscoveryResult, discover, find_matching_container, image_matches, extract_compose_info, label,
  first_config_file, container_name, wrap_error, lift, or_not_found,
}
use rollhook.Registry.{Crypto, mint_registry_token}
use rollhook.Auth.{
  Claims, Request, passed, is_jwt, verified, check_jwt, check_token, huma_auth, lists,
  allowed_repos, allowed_refs, check_ref, check_oidc_labels, granted, checked, discovered,
  exchange_name, post_auth_token,
}
use rollhook.Auth.Access.{MayPass, huma_auth-MayPass}
use rollhook.Auth.Exchange.{Named, AllowedRef}
use rollhook.Auth.Verifier.{
  OidcLibrary, AudienceLaw, IsVerified, issuer, verifier_config, claims_of, verify_token, accepts,
  new_verifier,
}
use rollhook.Auth.Granted.{auth_token_request, handled, serve_auth_token, serve_auth_token-granted}
use rollhook.Text.Equality.{beq-cases}
use rollhook.Fixtures.{World, docker, before, labels}

abbrev claims : Claims
claims = record { repository = codes "me/app"; ref = codes "refs/heads/main" }

abbrev verify : Bytes → Option Claims
verify token = some claims

abbrev exchange : Request
exchange = record {
  is_secured = true;
  operation_id = codes "post-auth-token";
  authorization = codes "Bearer eyJx";
}

lets_in : huma_auth (some verify) (codes "s3cret") exchange ≡ passed (some claims)
unfolding huma_auth check_token check_jwt verified is_jwt has_prefix cut_prefix beq
lets_in = refl

huma_auth-MayPass_example :
    (token : Bytes) × (codes "Bearer eyJx" ≡ codes "Bearer " ++ token)
    × MayPass (some verify) (codes "s3cret") (codes "post-auth-token") token (some claims)
huma_auth-MayPass_example =
    huma_auth-MayPass (some verify) (codes "s3cret") exchange (some claims) refl lets_in

abbrev deploy : Request
deploy = record {
  is_secured = true;
  operation_id = codes "deploy";
  authorization = codes "Bearer eyJsecret";
}

looks_like_jwt : is_jwt (codes "eyJsecret") ≡ true
unfolding is_jwt has_prefix cut_prefix
looks_like_jwt = refl

abbrev open_labels : List (Bytes × Bytes)
open_labels = (codes "rollhook.allowed_repos", codes "me/db, me/app") ∷ labels

allowed : check_oidc_labels claims open_labels ≡ ok tt
unfolding check_oidc_labels check_ref lists label beq split trim_space
allowed = refl

abbrev open_docker : Docker World
open_docker = record docker {
  container_inspect = λ id w. (ok (record { labels = some open_labels; health = none }), w);
}

abbrev plain : Crypto
plain = record {
  encode_url = λ s. s;
  decode_url = λ s. some s;
  decode_std = λ s. some s;
  hmac = λ key message. codes "c0de";
  format_int = λ n. codes "900";
}

exchanged :
    (post_auth_token open_docker plain 0 (codes "s3cret") (some claims) (codes " app") before).0
    ≡ ok (granted (mint_registry_token plain 0 (codes "s3cret") (codes "app")) (codes "s3cret"))
unfolding post_auth_token exchange_name discovered checked check_oidc_labels check_ref lists label
    beq split trim_space has_prefix cut_prefix contains discover attempt pure call fail ◌>>=◌
    list_running_containers inspect_container find_matching_container image_matches
    extract_compose_info first_config_file container_name wrap_error lift or_not_found base_name
    repo_from_ref index last_index
exchanged = refl

-- A provider whose tokens are all for one server.
abbrev one_server : OidcLibrary (Unit {0}) (Unit {0})
one_server = record {
  new_provider = λ url. some tt;
  verify = λ p cfg raw.
      if cfg.skip_client_id_check || beq cfg.client_id (codes "https://hook")
      then some tt
      else none;
  token_claims = λ t. some claims;
  audience = λ t. codes "https://hook" ∷ [];
}

one_server-law : AudienceLaw one_server
one_server-law p cfg raw t v s = elim (beq-cases cfg.client_id (codes "https://hook")) [
  | inl (_, e) ↦ ([], [], ap (λ x. x ∷ []) (sym e))
  | inr (b, _) ↦ ground (arith, v, s, b)
]

abbrev hook_env : Bytes → Bytes
hook_env key = if beq key (codes "ROLLHOOK_URL") then codes "https://hook" else []

taken :
    huma_auth
      (new_verifier one_server hook_env)
      (codes "s3cret")
      (auth_token_request (codes "Bearer eyJx"))
    ≡ passed (some claims)
unfolding huma_auth check_token check_jwt verified is_jwt has_prefix cut_prefix beq new_verifier
    accepts verify_token claims_of issuer verifier_config auth_token_request
taken = refl

served :
    (serve_auth_token open_docker plain one_server hook_env 0
      (codes "s3cret")
      (codes "Bearer eyJx")
      (codes " app")
      before).0
    ≡ ok (granted (mint_registry_token plain 0 (codes "s3cret") (codes "app")) (codes "s3cret"))
unfolding serve_auth_token handled
served =
    ap (λ v. (handled open_docker plain 0 (codes "s3cret") (codes " app") v before).0) taken
    ∙ exchanged

serve_auth_token-granted_example :
    (raw : Bytes) × (codes "Bearer eyJx" ≡ codes "Bearer " ++ raw)
    × (c : Claims) × IsVerified one_server hook_env raw c
    × (has_prefix (codes "refs/pull/") c.ref ≡ false)
    × (d : DiscoveryResult) × ((discover open_docker
          (trim_space (codes " app") ++ codes ":latest")
          before).0
        ≡ ok d)
    × Named c.repository (split b',' (allowed_repos d.labels))
    × AllowedRef (allowed_refs d.labels) c.ref
    × (mint_registry_token plain 0 (codes "s3cret") (codes "app")
        ≡ mint_registry_token plain 0 (codes "s3cret") (trim_space (codes " app")))
    × (codes "s3cret" ≡ codes "s3cret")
serve_auth_token-granted_example =
    serve_auth_token-granted open_docker plain one_server one_server-law hook_env 0 (codes "s3cret")
      (codes "Bearer eyJx") (codes " app")
      (mint_registry_token plain 0 (codes "s3cret") (codes "app")) (codes "s3cret") before served
