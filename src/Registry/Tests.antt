-- ===== src/Registry/Tests.antt =====
-- A registry whose encoders are plain, and the theorems at it.
use rollhook.Prelude.{
  ℕ, suc, ◌+◌, All, ◌++◌, ◌/◌, ◌%◌, zero, true, false, not, some, [], ◌∷◌, ltb, if◌then◌else◌, ◌≡◌,
  refl, arith,
}
use rollhook.Text.{
  Bytes, Lacks, codes, beq, index, last_index, cut_prefix, split, join, trim_left, trim_right,
}
use rollhook.Text.Number.{parse_int}
use rollhook.Registry.{
  Crypto, registry_token_ttl, mint_registry_token, validate_registry_token_for_repo,
  extract_repo_from_path, credential, validate_proxy_auth, token_valid, is_fresh_and_signed,
  decode_registry_token, read_token, named, expiry_text, expired, repo_of, segments, is_slash,
}
use rollhook.Registry.Tokens.{IsCodec, IsPrinted, validate_registry_token_for_repo-mint}
use rollhook.Registry.Paths.{begin_upload, Trims, validate_proxy_auth-mint}
use rollhook.Registry.Proxy.{Request}

-- The decimal digits, the last one first.
digits : ℕ → ℕ → Bytes → Bytes
digits zero n s = s
digits (suc fuel) n s =
    let more = digits fuel (n / 10) ((b'0' + n % 10) ∷ s) in
    if ltb n 10 then (b'0' + n) ∷ s else more

abbrev plain : Crypto
plain = record {
  encode_url = λ s. s;
  decode_url = λ s. some s;
  decode_std = λ s. some s;
  hmac = λ key message. codes "c0de";
  format_int = λ n. digits 20 n [];
}

codec : IsCodec plain
codec = record {
  decode_url-encode_url = λ s. refl;
  hmac-Lacks = λ key message. (
    (λ h. ground arith),
    ((λ h. ground arith), ((λ h. ground arith), ((λ h. ground arith), tt))),
  );
}

printed : IsPrinted plain 900
unfolding parse_int digits
printed = record {
  format_int-Lacks = ((λ h. ground arith), ((λ h. ground arith), ((λ h. ground arith), tt)));
  parse_int-format_int = refl;
}

validate_registry_token_for_repo-mint_example :
    validate_registry_token_for_repo plain 900
      (codes "s3cret")
      (mint_registry_token plain 0 (codes "s3cret") (codes "app"))
      (codes "app")
    ≡ (if beq (codes "app") (codes "app") then not (ltb (0 + registry_token_ttl) 900) else false)
validate_registry_token_for_repo-mint_example =
    validate_registry_token_for_repo-mint plain 0 900 (codes "s3cret") (codes "app") (codes "app")
      codec printed (λ h. ground arith)

repo_of_manifest : extract_repo_from_path (codes "/v2/org/app/manifests/latest") ≡ codes "org/app"
unfolding extract_repo_from_path repo_of segments is_slash cut_prefix split join trim_left
    trim_right beq
repo_of_manifest = refl

repo_of_ping : extract_repo_from_path (codes "/v2/") ≡ []
unfolding extract_repo_from_path repo_of segments is_slash cut_prefix split join trim_left
    trim_right beq
repo_of_ping = refl

-- A tag that is named like an operation is taken for one.
repo_of_tag_named_tags :
    extract_repo_from_path (codes "/v2/app/manifests/tags") ≡ codes "app/manifests"
unfolding extract_repo_from_path repo_of segments is_slash cut_prefix split join trim_left
    trim_right beq
repo_of_tag_named_tags = refl

let_in :
    validate_proxy_auth plain 0
      (codes "s3cret")
      (codes "/v2/app/tags/list")
      (codes "Bearer 900:app:c0de")
    ≡ true
unfolding validate_proxy_auth token_valid credential extract_repo_from_path repo_of segments
    is_slash cut_prefix split join trim_left trim_right beq validate_registry_token_for_repo
    is_fresh_and_signed decode_registry_token read_token named expiry_text expired parse_int index
    last_index
let_in = refl

trimmed :
    Trims
      (codes "org/app/blobs/uploads/")
      (codes "org" ∷ (codes "app" ∷ [] ++ (codes "blobs" ∷ codes "uploads" ∷ [])))
unfolding trim_left trim_right is_slash join
trimmed = refl

no_slashes :
    All (Lacks b'/') (codes "org" ∷ (codes "app" ∷ [] ++ (codes "blobs" ∷ codes "uploads" ∷ [])))
no_slashes = (
  ((λ h. ground arith), ((λ h. ground arith), ((λ h. ground arith), tt))),
  (
    ((λ h. ground arith), ((λ h. ground arith), ((λ h. ground arith), tt))),
    (
      (
        (λ h. ground arith),
        (
          (λ h. ground arith),
          ((λ h. ground arith), ((λ h. ground arith), ((λ h. ground arith), tt))),
        ),
      ),
      (
        (
          (λ h. ground arith),
          (
            (λ h. ground arith),
            (
              (λ h. ground arith),
              (
                (λ h. ground arith),
                ((λ h. ground arith), ((λ h. ground arith), ((λ h. ground arith), tt))),
              ),
            ),
          ),
        ),
        tt,
      ),
    ),
  ),
)

validate_proxy_auth-mint_example :
    validate_proxy_auth plain 900
      (codes "s3cret")
      (codes "/v2/" ++ codes "org/app/blobs/uploads/")
      (codes "Bearer "
        ++ mint_registry_token plain 0
            (codes "s3cret")
            (join b'/' (codes "org" ∷ codes "app" ∷ [])))
    ≡ true
validate_proxy_auth-mint_example =
    validate_proxy_auth-mint plain 0 900 (codes "s3cret") (codes "org/app/blobs/uploads/")
      (codes "org") (codes "app" ∷ []) (codes "blobs" ∷ codes "uploads" ∷ []) codec printed
      (omega arith) (λ h. ground arith) trimmed no_slashes begin_upload

abbrev request : Request
request = record {
  path = codes "/v2/app/tags/list";
  headers = (codes "Authorization", codes "Bearer 900:app:c0de") ∷ (codes "Te", codes "gzip") ∷ [];
}

-- A proxy that adds the header for trailers.
abbrev with_trailers : Request → Request → Request
with_trailers req out = record out { headers = (codes "Te", codes "trailers") ∷ out.headers }
