-- ===== src/Discover.antt =====
-- internal/jobs/steps/discover.go: from an image reference to the Compose service that runs it.
pub mod Sound
pub mod Tests
use rollhook.Prelude.{
  ℕ, Bool, true, false, ◌||◌, Option, none, some, List, [], ◌∷◌, Result, ok, err, if◌then◌else◌,
  take,
}
use rollhook.Text.{Bytes, codes, beq, index, cut_prefix, trim_space}
use rollhook.Image.{extract_image_name, base_name}
use rollhook.Effect.{
  Io, Err, service_not_found, no_labels, missing_label, discovering, pure, fail, attempt, ◌>>=◌,
}
use rollhook.Docker.{Docker, Summary, Inspect, list_running_containers, inspect_container}

abbrev pub Labels : Type 0
Labels = List (Bytes × Bytes)

-- `labels[key]`: the empty text for a missing key.
unfoldable pub label : Bytes → Labels → Bytes
label key [] = []
label key ((k, v) ∷ rest) = if beq k key then v else label key rest

pub record DiscoveryResult : Type 0 where
  pub compose_path : Bytes
  pub service : Bytes
  pub project : Bytes
  pub labels : Labels

-- The test of the loop in `FindMatchingContainer`.
unfoldable pub image_matches : Bytes → Summary → Bool
image_matches image_name c =
    let name = extract_image_name c.image in
    beq name image_name || beq (base_name name) (base_name image_name)

unfoldable pub find_matching_container : List Summary → Bytes → Option Summary
find_matching_container [] image_name = none
find_matching_container (c ∷ rest) image_name =
    let later = find_matching_container rest image_name in
    if image_matches image_name c then some c else later

-- `strings.SplitN(s, ",", 2)[0]`
before_comma : Bytes → Bytes
before_comma s = elim (index b',' s) [ none ↦ s | some i ↦ take i s ]

abbrev pub config_files_key : Bytes
config_files_key = codes "com.docker.compose.project.config_files"

abbrev pub service_key : Bytes
service_key = codes "com.docker.compose.service"

abbrev pub project_key : Bytes
project_key = codes "com.docker.compose.project"

unfoldable pub first_config_file : Labels → Bytes
unfolding before_comma
first_config_file labels = trim_space (before_comma (label config_files_key labels))

unfoldable pub extract_compose_info : Option Labels → Bytes → Result Err DiscoveryResult
extract_compose_info none name = err (no_labels name)
extract_compose_info (some labels) name =
    if beq (first_config_file labels) []
    then err (missing_label name config_files_key)
    else if beq (label service_key labels) []
    then err (missing_label name service_key)
    else if beq (label project_key labels) []
    then err (missing_label name project_key)
    else ok (record {
      compose_path = first_config_file labels;
      service = label service_key labels;
      project = label project_key labels;
      labels = labels;
    })

-- `strings.TrimPrefix(s, "/")`
trim_slash : Bytes → Bytes
trim_slash s = elim (cut_prefix (codes "/") s) [ none ↦ s | some r ↦ r ]

first_name : List Bytes → Bytes → Bytes
first_name [] id = take 12 id
first_name (n ∷ _) id = trim_slash n

unfoldable pub container_name : Summary → Bytes
unfolding first_name trim_slash
container_name c = first_name c.names c.id

-- `if err != nil { return nil, fmt.Errorf("discover: %w", err) }`
unfoldable pub wrap_error {ℓ κ} : {W : Type ℓ} {A : Type κ} → Result Err A → Io W A
wrap_error (ok a) = pure a
wrap_error (err e) = fail (discovering e)

unfoldable pub lift {ℓ κ} : {W : Type ℓ} {A : Type κ} → Result Err A → Io W A
lift (ok a) = pure a
lift (err e) = fail e

-- `if match == nil { … }`
unfoldable pub or_not_found {ℓ κ} : {W : Type ℓ} {A : Type κ} → Bytes → Option A → Io W A
or_not_found name none = fail (service_not_found name)
or_not_found name (some a) = pure a

module _ {W : Type 0} (cli : Docker W) where
  unfoldable pub discover : Bytes → Io W DiscoveryResult
  discover image_tag = do
    let image_name = extract_image_name image_tag
    listing ← attempt (list_running_containers cli)
    containers ← wrap_error listing
    match ← or_not_found image_name (find_matching_container containers image_name)
    answer ← attempt (inspect_container cli match.id)
    detail ← wrap_error answer
    lift (extract_compose_info detail.labels (container_name match))
