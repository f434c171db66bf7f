-- ===== src/Image.antt =====
-- Image references: `RepoFromRef`, `extractHost`, `isLocalhost`, `isOwnRegistry` and `shortID` of
-- internal/docker/api.go, `baseName` and `ExtractImageName` of internal/jobs/steps/discover.go, and
-- `extractApp` of internal/jobs/executor.go.
pub mod Reference
pub mod Names
pub mod Tests
use rollhook.Prelude.{
  ℕ, suc, ◌+◌, Bool, true, false, ◌||◌, Option, none, some, List, [], ltb, if◌then◌else◌, length,
  take, drop,
}
use rollhook.Text.{Bytes, codes, beq, index, last_index, has_prefix}

-- `if idx := strings.Index(s, c); idx >= 0 { s = s[:idx] }`
unfoldable pub before_first : ℕ → Bytes → Bytes
before_first c s = elim (index c s) [ none ↦ s | some i ↦ take i s ]

-- `strings.LastIndex(ref, "/") + 1`
abbrev after_slash : Option ℕ → ℕ
after_slash none = 0
after_slash (some i) = suc i

-- `tagStart` is the index of the first colon behind the last slash.
cut_tag : Bytes → ℕ → Bytes
cut_tag ref start = elim (index b':' (drop start ref)) [
  | none ↦ ref
  | some i ↦ take (start + i) ref
]

unfoldable pub repo_from_ref : Bytes → Bytes
unfolding before_first cut_tag
repo_from_ref s = let ref = before_first b'@' s in cut_tag ref (after_slash (last_index b'/' ref))

abbrev pub extract_image_name : Bytes → Bytes
extract_image_name = repo_from_ref

unfoldable pub base_name : Bytes → Bytes
base_name image = elim (last_index b'/' image) [ none ↦ image | some i ↦ drop (suc i) image ]

pub extract_app : Bytes → Bytes
unfolding before_first base_name
extract_app tag = before_first b':' (base_name tag)

unfoldable pub extract_host : Bytes → Bytes
extract_host tag = elim (index b'/' tag) [ none ↦ [] | some i ↦ take i tag ]

unfoldable pub is_localhost : Bytes → Bool
is_localhost tag = elim (index b'/' tag) [
  | none ↦ false
  | some i ↦
      has_prefix (codes "localhost:") (take i tag) || has_prefix (codes "127.0.0.1:") (take i tag)
]

-- `env` is `ROLLHOOK_URL`, and `url_host` the host that `url.Parse` finds, empty on an error.
unfoldable pub is_own_registry : (Bytes → Bytes) → Bytes → Bytes → Bool
is_own_registry url_host env tag =
    if is_localhost tag
    then true
    else if beq env []
    then false
    else if beq (url_host env) []
    then false
    else beq (extract_host tag) (url_host env)

pub short_id : Bytes → Bytes
short_id id = if ltb 12 (length id) then take 12 id else id
