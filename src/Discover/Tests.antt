-- ===== src/Discover/Tests.antt =====
-- Discovery among two containers.
use rollhook.Prelude.{some, List, [], ◌∷◌, ok, ◌≡◌, refl}
use rollhook.Text.{Bytes, codes, beq, index, last_index, trim_space}
use rollhook.Image.{base_name, extract_image_name, repo_from_ref}
use rollhook.Docker.{Summary}
use rollhook.Discover.{
  DiscoveryResult, label, image_matches, find_matching_container, first_config_file,
  extract_compose_info,
}
use rollhook.Discover.Sound.{}

abbrev of_image : Bytes → Summary
of_image image = record { id = codes "c"; image = image; image_id = []; names = [] }

abbrev other_registry : Summary
other_registry = of_image (codes "b.io/app:v1")

abbrev exact : Summary
exact = of_image (codes "a.io/app:v1")

abbrev db : Summary
db = of_image (codes "db")

same_base : base_name (extract_image_name (codes "b.io/app:v1")) ≡ base_name (codes "a.io/app")
unfolding base_name repo_from_ref index last_index
same_base = refl

exact_image : extract_image_name (codes "a.io/app:v1") ≡ codes "a.io/app"
unfolding repo_from_ref index last_index
exact_image = refl

second : find_matching_container (db ∷ exact ∷ []) (codes "a.io/app") ≡ some exact
unfolding find_matching_container image_matches base_name repo_from_ref index last_index beq
second = refl

abbrev labels : List (Bytes × Bytes)
labels =
    (codes "com.docker.compose.project.config_files", codes "/srv/compose.yml")
    ∷ (codes "com.docker.compose.service", codes "app")
    ∷ (codes "com.docker.compose.project", codes "demo")
    ∷ []

abbrev info : DiscoveryResult
info = record {
  compose_path = codes "/srv/compose.yml";
  service = codes "app";
  project = codes "demo";
  labels = labels;
}

read_labels : extract_compose_info (some labels) (codes "app") ≡ ok info
unfolding extract_compose_info first_config_file label beq trim_space index
read_labels = refl
