-- ===== src/Validate.antt =====
-- `Validate` of internal/jobs/steps/validate.go. The Compose loader and the YAML decoder are
-- parameters.
pub mod Accepted
pub mod Tests
use rollhook.Prelude.{
  ℕ, Bool, true, false, not, Option, none, some, List, [], Result, ok, err, ltb, if◌then◌else◌,
}
use rollhook.Text.{Bytes, codes, beq, contains}
use rollhook.Effect.{
  Io, Err, not_absolute, file_missing, compose_options, compose_invalid, service_missing,
  ports_exposed, container_name_set, no_healthcheck, image_tag_missing,
}
use rollhook.Host.{Host, FileRead, content, missing, unreadable}

-- The fields of `types.ServiceConfig` that the program reads; `health_check` is `Disable` of a
-- `HealthCheck` that is not nil.
pub record Service : Type 0 where
  pub ports : ℕ
  pub container_name : Bytes
  pub health_check : Option Bool
  pub image : Bytes

-- `NewProjectOptions` and `LoadProject`; a project is `GetService`.
pub data Loaded : Type 0 where
  bad_options invalid : Loaded
  project : (Bytes → Option Service) → Loaded

pub record Compose (W : Type 0) : Type 0 where
  -- `os.Stat` without an error.
  pub stat : Bytes → W → Bool
  pub load_project : Bytes → W → Loaded
  -- `raw.Services[service].Image` of a file that `yaml.Unmarshal` takes and that has the service.
  pub raw_image : Bytes → Bytes → Option Bytes

-- The test of the raw image field.
pub check_raw_image : Option Bytes → Result Err (Unit {0})
check_raw_image none = ok tt
check_raw_image (some image) =
    if beq image []
    then ok tt
    else if contains (codes "IMAGE_TAG") image
    then ok tt
    else err (image_tag_missing image)

-- The image field as the source finds it: `none` when the file cannot be read.
pub raw_image_of : {W : Type 0} → Compose W → Bytes → FileRead → Option Bytes
raw_image_of compose service (content bytes) = compose.raw_image bytes service
raw_image_of compose service missing = none
raw_image_of compose service unreadable = none

-- `svc.HealthCheck == nil || svc.HealthCheck.Disable`
pub lacks_healthcheck : Option Bool → Bool
lacks_healthcheck none = true
lacks_healthcheck (some disable) = disable

module _ {W : Type 0} (host : Host W) (compose : Compose W) where
  pub check_image : Bytes → Bytes → Service → Io W (Unit {0})
  unfolding check_raw_image raw_image_of
  check_image path service svc w =
      if beq svc.image []
      then (ok tt, [], w)
      else let (read, w') = host.read_file path w in
        (check_raw_image (raw_image_of compose service read), [], w')

  pub check_service : Bytes → Bytes → Service → Io W (Unit {0})
  unfolding check_image lacks_healthcheck
  check_service path service svc w =
      if ltb 0 svc.ports
      then (err ports_exposed, [], w)
      else if not (beq svc.container_name [])
      then (err container_name_set, [], w)
      else if lacks_healthcheck svc.health_check
      then (err no_healthcheck, [], w)
      else check_image path service svc w

  pub check_loaded : Bytes → Bytes → Loaded → Io W (Unit {0})
  unfolding check_service
  check_loaded path service bad_options w = (err compose_options, [], w)
  check_loaded path service invalid w = (err compose_invalid, [], w)
  check_loaded path service (project get_service) w = elim (get_service service) [
    | none ↦ (err (service_missing service path), [], w)
    | some svc ↦ check_service path service svc w
  ]

  pub validate : Bytes → Bytes → Io W (Unit {0})
  unfolding check_loaded
  validate path service w =
      if not (host.is_abs path)
      then (err (not_absolute path), [], w)
      else if not (compose.stat path w)
      then (err (file_missing path), [], w)
      else check_loaded path service (compose.load_project path w) w
