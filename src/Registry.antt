-- ===== src/Registry.antt =====
-- Who may use the registry: internal/registry/token.go, and `extractRepoFromPath` and
-- `validateProxyAuth` of internal/registry/proxy.go. Base64, HMAC and the decimal print of a number
-- are parameters.
pub mod Tokens
pub mod Access
pub mod Manager
pub mod Paths
pub mod Proxy
pub mod Config
pub mod Start
pub mod Tests
use rollhook.Prelude.{
  ℕ, suc, ◌+◌, ◌*◌, ◌==◌, Bool, true, false, not, ◌&&◌, ◌||◌, Option, none, some, List, [], ◌∷◌,
  ◌++◌, ltb, if◌then◌else◌, take, drop, ℤ, pos, negsuc,
}
use mathlib.Core.List.{reverse}
use rollhook.Text.{
  Bytes, codes, beq, index, last_index, cut_prefix, split, join, trim_left, trim_right,
}
use rollhook.Text.Number.{parse_int}

pub record Crypto : Type 0 where
  -- `base64.RawURLEncoding`
  pub encode_url : Bytes → Bytes
  pub decode_url : Bytes → Option Bytes
  -- `base64.StdEncoding.DecodeString`
  pub decode_std : Bytes → Option Bytes
  -- `computeRegistryHMAC`: the key, then the message; the result in hex.
  pub hmac : Bytes → Bytes → Bytes
  -- `strconv.FormatInt(n, 10)`
  pub format_int : ℕ → Bytes

-- `registryTokenTTL`, in seconds.
abbrev pub registry_token_ttl : ℕ
registry_token_ttl = 15 * 60

-- What `decodeRegistryToken` finds: the image name, the signed text and the code.
pub record Token : Type 0 where
  pub image_name : Bytes
  pub rest : Bytes
  pub mac : Bytes

-- Behind the last colon is the code, in front of it the signed text, and in that the image name is
-- behind the first colon.
named : Bytes → Bytes → Option Token
named rest mac = elim (index b':' rest) [
  | none ↦ none
  | some i ↦ some (record { image_name = drop (suc i) rest; rest = rest; mac = mac })
]

pub read_token : Bytes → Option Token
unfolding named
read_token s = elim (last_index b':' s) [ none ↦ none | some i ↦ named (take i s) (drop (suc i) s) ]

-- The text in front of the first colon, which every decoded token has.
pub expiry_text : Bytes → Bytes
expiry_text rest = elim (index b':' rest) [ none ↦ [] | some i ↦ take i rest ]

-- `err != nil || time.Now().Unix() > expiryUnix`, where the clock is after 1970.
pub expired : ℕ → Option ℤ → Bool
expired now none = true
expired now (some (pos n)) = ltb n now
expired now (some (negsuc _)) = true

-- The path of a request split at the slashes, and the last segment that names an operation. The
-- list is in reverse: a segment, then those in front of it.
pub repo_of : List Bytes → Bytes
repo_of [] = []
repo_of (p ∷ ps) =
    let rest = repo_of ps in
    if beq p (codes "manifests")
      || beq p (codes "tags")
      || beq p (codes "referrers")
      || beq p (codes "blobs")
    then join b'/' (reverse ps)
    else if beq p (codes "uploads")
    then under_blobs ps rest
    else rest
  where
    under_blobs : List Bytes → Bytes → Bytes
    under_blobs [] rest = rest
    under_blobs (q ∷ qs) rest = if beq q (codes "blobs") then join b'/' (reverse qs) else rest

pub is_slash : ℕ → Bool
is_slash c = c == b'/'

pub segments : Bytes → List Bytes
unfolding is_slash
segments rest = split b'/' (trim_right is_slash (trim_left is_slash rest))

pub extract_repo_from_path : Bytes → Bytes
unfolding repo_of segments
extract_repo_from_path path = elim (cut_prefix (codes "/v2/") path) [
  | none ↦ []
  | some rest ↦ repo_of (reverse (segments rest))
]

module _ (crypto : Crypto) where
  pub mint_registry_token : ℕ → Bytes → Bytes → Bytes
  mint_registry_token now secret image_name =
      let rest = crypto.format_int (now + registry_token_ttl) ++ b':' ∷ image_name in
      crypto.encode_url (rest ++ b':' ∷ crypto.hmac secret rest)

  pub decode_registry_token : Bytes → Option Token
  unfolding read_token
  decode_registry_token token = elim (crypto.decode_url token) [
    | none ↦ none
    | some s ↦ read_token s
  ]

  pub is_fresh_and_signed : ℕ → Bytes → Token → Bool
  unfolding expired expiry_text
  is_fresh_and_signed now secret t =
      not (expired now (parse_int (expiry_text t.rest))) && beq t.mac (crypto.hmac secret t.rest)

  pub validate_registry_token : ℕ → Bytes → Bytes → Bool
  unfolding decode_registry_token is_fresh_and_signed
  validate_registry_token now secret token = elim (decode_registry_token token) [
    | none ↦ false
    | some t ↦ is_fresh_and_signed now secret t
  ]

  pub validate_registry_token_for_repo : ℕ → Bytes → Bytes → Bytes → Bool
  unfolding decode_registry_token is_fresh_and_signed
  validate_registry_token_for_repo now secret token repo =
      if beq repo [] then false else elim (decode_registry_token token) [
        | none ↦ false
        | some t ↦ if beq t.image_name repo then is_fresh_and_signed now secret t else false
      ]

  -- `tokenValid`
  pub token_valid : ℕ → Bytes → Bytes → Bytes → Bool
  unfolding validate_registry_token validate_registry_token_for_repo extract_repo_from_path
  token_valid now secret path token =
      if beq token secret
      then true
      else if not (beq (extract_repo_from_path path) [])
      then validate_registry_token_for_repo now secret token (extract_repo_from_path path)
      else if beq path (codes "/v2") || beq path (codes "/v2/")
      then validate_registry_token now secret token
      else false

  -- The password behind the first colon of the decoded text.
  pub basic_password : Bytes → Option Bytes
  basic_password basic = elim (crypto.decode_std basic) [
    | none ↦ none
    | some decoded ↦ elim (index b':' decoded) [
      | none ↦ none
      | some i ↦ some (drop (suc i) decoded)
    ]
  ]

  -- The credential of an `Authorization` header.
  pub credential : Bytes → Option Bytes
  unfolding basic_password
  credential header = elim (cut_prefix (codes "Bearer ") header) [
    | some bearer ↦ some bearer
    | none ↦ elim (cut_prefix (codes "Basic ") header) [
      | some basic ↦ basic_password basic
      | none ↦ none
    ]
  ]

  -- `ServeHTTP` of the proxy forwards the request exactly when this is true.
  pub validate_proxy_auth : ℕ → Bytes → Bytes → Bytes → Bool
  unfolding token_valid credential
  validate_proxy_auth now secret path header =
      if beq header [] then false else elim (credential header) [
        | none ↦ false
        | some token ↦ token_valid now secret path token
      ]
