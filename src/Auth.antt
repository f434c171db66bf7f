-- ===== src/Auth.antt =====
-- Who may call the API: `HumaAuth` of internal/middleware/huma_auth.go, `RequireAuth` of
-- internal/middleware/auth.go, `IsJWT` of internal/oidc/verifier.go, `checkOIDCLabels` of
-- internal/api/deploy.go and the handler of internal/api/auth.go. The verification of a token is a
-- parameter, which Auth.Verifier gives; so are base64 and HMAC.
pub mod Access
pub mod Exchange
pub mod Verifier
pub mod Granted
pub mod Tests
use rollhook.Prelude.{
  ℕ, Bool, true, false, ◌||◌, ◌&&◌, not, Option, none, some, List, [], ◌∷◌, ◌++◌, Result, ok, err,
  if◌then◌else◌,
}
use rollhook.Text.{Bytes, codes, beq, cut_prefix, has_prefix, contains, split, trim_space}
use rollhook.Effect.{Io, Err, service_not_found, attempt, pure, ◌>>=◌}
use rollhook.Docker.{Docker}
use rollhook.Discover.{Labels, label, DiscoveryResult, discover}
use rollhook.Registry.{Crypto, mint_registry_token}

-- The fields of `Claims` that the program reads.
pub record Claims : Type 0 where
  pub repository : Bytes
  pub ref : Bytes

-- A request at the middleware: whether its operation has a security requirement, the operation, and
-- the `Authorization` header.
pub record Request : Type 0 where
  pub is_secured : Bool
  pub operation_id : Bytes
  pub authorization : Bytes

-- The status of a refusal, or the call of `next` with the claims in its context.
pub data Verdict : Type 0 where
  refused : ℕ → Verdict
  passed : Option Claims → Verdict

pub is_jwt : Bytes → Bool
is_jwt token = has_prefix (codes "eyJ") token

check_secret : Bytes → Bytes → Verdict
check_secret secret token = if beq token secret then passed none else refused 403

verified : Option Claims → Verdict
verified none = refused 403
verified (some claims) = passed (some claims)

-- The branch of a token that looks like a JWT.
check_jwt : (Bytes → Option Claims) → Bytes → Bytes → Verdict
unfolding verified
check_jwt verify operation_id token =
    if not (beq operation_id (codes "post-auth-token"))
    then refused 403
    else verified (verify token)

-- The verifier is `none` when OIDC is disabled.
check_token : Option (Bytes → Option Claims) → Bytes → Bytes → Bytes → Verdict
unfolding check_secret check_jwt is_jwt
check_token none secret operation_id token = check_secret secret token
check_token (some verify) secret operation_id token =
    if is_jwt token then check_jwt verify operation_id token else check_secret secret token

pub huma_auth : Option (Bytes → Option Claims) → Bytes → Request → Verdict
unfolding check_token
huma_auth verifier secret r =
    if not r.is_secured then passed none else elim (cut_prefix (codes "Bearer ") r.authorization) [
      | none ↦ refused 401
      | some token ↦ check_token verifier secret r.operation_id token
    ]

pub require_auth : Bytes → Bytes → Verdict
unfolding check_secret
require_auth secret authorization = elim (cut_prefix (codes "Bearer ") authorization) [
  | none ↦ refused 401
  | some token ↦ check_secret secret token
]

pub data LabelError : Type 0 where
  no_allowed_repos repo_not_allowed ref_not_default ref_not_allowed : LabelError

-- Is one of the parts, without its spaces, this text?
pub lists : Bytes → List Bytes → Bool
lists s [] = false
lists s (p ∷ ps) = beq (trim_space p) s || lists s ps

abbrev pub allowed_repos : Labels → Bytes
allowed_repos labels = label (codes "rollhook.allowed_repos") labels

abbrev pub allowed_refs : Labels → Bytes
allowed_refs labels = label (codes "rollhook.allowed_refs") labels

check_ref : Bytes → Bytes → Result LabelError (Unit {0})
check_ref refs ref =
    if beq refs []
    then (if not (beq ref (codes "refs/heads/main")) && not (beq ref (codes "refs/heads/master"))
        then err ref_not_default
        else ok tt)
    else if lists ref (split b',' refs)
    then ok tt
    else err ref_not_allowed

pub check_oidc_labels : Claims → Labels → Result LabelError (Unit {0})
unfolding check_ref
check_oidc_labels claims labels =
    if beq (allowed_repos labels) []
    then err no_allowed_repos
    else if lists claims.repository (split b',' (allowed_repos labels))
    then check_ref (allowed_refs labels) claims.ref
    else err repo_not_allowed

-- The response of `POST /auth/token`: a status, or the registry token and the secret.
pub data Exchanged : Type 0 where
  denied : ℕ → Exchanged
  granted : Bytes → Bytes → Exchanged

module _ {W : Type 0} (cli : Docker W) (crypto : Crypto) where
  checked : ℕ → Bytes → Bytes → Claims → Labels → Result LabelError (Unit {0}) → Exchanged
  checked now secret name claims labels (ok _) =
      granted (mint_registry_token crypto now secret name) secret
  checked now secret name claims labels (err _) = denied 403

  -- `errors.Is(err, steps.ErrServiceNotFound)`
  discovered : ℕ → Bytes → Bytes → Claims → Result Err DiscoveryResult → Exchanged
  unfolding checked
  discovered now secret name claims (ok d) =
      checked now secret name claims d.labels (check_oidc_labels claims d.labels)
  discovered now secret name claims (err (service_not_found _)) = denied 403
  discovered now secret name claims (err _) = denied 500

  exchange_name : ℕ → Bytes → Claims → Bytes → Io W Exchanged
  unfolding discovered
  exchange_name now secret claims name =
      if beq name [] || contains (codes ":") name then pure (denied 400) else do
        answer ← attempt (discover cli (name ++ codes ":latest"))
        pure (discovered now secret name claims answer)

  -- The handler, with the claims of the context.
  pub post_auth_token : ℕ → Bytes → Option Claims → Bytes → Io W Exchanged
  unfolding exchange_name
  post_auth_token now secret none image_name = pure (denied 403)
  post_auth_token now secret (some claims) image_name =
      if has_prefix (codes "refs/pull/") claims.ref
      then pure (denied 403)
      else exchange_name now secret claims (trim_space image_name)
