-- ===== src/Validate/Tests.antt =====
-- The validation of the small machine's service.
use rollhook.Prelude.{true, Option, some, [], ok, ◌≡◌, ◌≢◌, refl}
use rollhook.Text.{Bytes, codes, beq, contains}
use rollhook.Validate.{
  Service, project, raw_image_of, check_raw_image, lacks_healthcheck, check_image, check_service,
  check_loaded, validate,
}
use rollhook.Validate.Accepted.{IsDeployable, validate-ok}
use rollhook.Fixtures.{host, compose, before}

accepted : (validate host compose (codes "/srv/compose.yml") (codes "app") before).0 ≡ ok tt
unfolding validate check_loaded check_service check_image lacks_healthcheck check_raw_image
    raw_image_of beq
accepted = refl

validate-ok_example :
    (host.is_abs (codes "/srv/compose.yml") ≡ true)
    × (compose.stat (codes "/srv/compose.yml") before ≡ true)
    × (get_service : Bytes → Option Service) × (compose.load_project
          (codes "/srv/compose.yml")
          before
        ≡ project get_service)
    × (svc : Service) × (get_service (codes "app") ≡ some svc)
    × IsDeployable svc
    × ((image : Bytes)
        → svc.image ≢ []
        → raw_image_of compose (codes "app") (host.read_file (codes "/srv/compose.yml") before).0
          ≡ some image
        → image ≢ []
        → contains (codes "IMAGE_TAG") image ≡ true)
validate-ok_example =
    validate-ok host compose (codes "/srv/compose.yml") (codes "app") before accepted
