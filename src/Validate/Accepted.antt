-- ===== src/Validate/Accepted.antt =====
-- Which services the validation accepts.
use rollhook.Prelude.{
  true, false, Option, some, [], ok, ltb, ◌≡◌, ◌≢◌, inl, inr, refl, Bool-cases, Option-cases, arith,
  ap, sym, ◌∙◌,
}
use rollhook.Text.{Bytes, codes, contains}
use rollhook.Text.Equality.{beq-cases}
use rollhook.Host.{Host}
use rollhook.Validate.{
  Service, Loaded, bad_options, invalid, project, Compose, check_raw_image, raw_image_of,
  lacks_healthcheck, check_image, check_service, check_loaded, validate,
}

-- A service that a rolling deployment can use.
pub record IsDeployable (svc : Service) : Type 0 where
  pub no_ports : svc.ports ≡ 0
  pub no_name : svc.container_name ≡ []
  pub healthcheck : svc.health_check ≡ some false

check_raw_image-ok :
    (image : Bytes)
    → check_raw_image (some image) ≡ ok tt
    → image ≢ []
    → contains (codes "IMAGE_TAG") image ≡ true
unfolding check_raw_image
check_raw_image-ok image h ne = elim (beq-cases image []) [
  | inl (_, e) ↦ absurd (ne e)
  | inr (b, _) ↦ elim (Bool-cases (contains (codes "IMAGE_TAG") image)) [
    | inl c ↦ c
    | inr c ↦ ground (arith, h, b, c)
  ]
]

module _ {W : Type 0} (host : Host W) (compose : Compose W) where
  check_service-ok :
      (path service : Bytes) (svc : Service) (w : W)
      → (check_service host compose path service svc w).0 ≡ ok tt
      → IsDeployable svc × ((check_image host compose path service svc w).0 ≡ ok tt)
  unfolding check_service lacks_healthcheck
  check_service-ok path service svc w h = elim (Bool-cases (ltb 0 svc.ports)) [
    | inl p ↦ ground (arith, h, p)
    | inr p ↦ elim (beq-cases svc.container_name []) [
      | inr (n, _) ↦ ground (arith, h, p, n)
      | inl (n, e) ↦ elim (Option-cases svc.health_check) [
        | inl c ↦ ground (arith, h, p, n, c)
        | inr (d, c) ↦ elim (Bool-cases d) [
          | inl x ↦ ground (arith, h, p, n, c, x)
          | inr x ↦ (
            record { no_ports = ground (arith, p); no_name = e; healthcheck = c ∙ ap some x },
            ground (arith, h, p, n, c, x),
          )
        ]
      ]
    ]
  ]

  check_image-ok :
      (path service image : Bytes) (svc : Service) (w : W)
      → (check_image host compose path service svc w).0 ≡ ok tt
      → svc.image ≢ []
      → raw_image_of compose service (host.read_file path w).0 ≡ some image
      → image ≢ []
      → contains (codes "IMAGE_TAG") image ≡ true
  unfolding check_image
  check_image-ok path service image svc w h ne raw nonempty = elim (beq-cases svc.image []) [
    | inl (_, e) ↦ absurd (ne e)
    | inr (b, _) ↦
        let r : check_raw_image (raw_image_of compose service (host.read_file path w).0) ≡ ok tt =
          ground (arith, h, b) in
        check_raw_image-ok image (sym (ap check_raw_image raw) ∙ r) nonempty
  ]

  check_loaded-ok :
      (path service : Bytes) (l : Loaded) (w : W)
      → (check_loaded host compose path service l w).0 ≡ ok tt
      → (gs : Bytes → Option Service) × (l ≡ project gs)
        × (svc : Service) × (gs service ≡ some svc)
        × ((check_service host compose path service svc w).0 ≡ ok tt)
  unfolding check_loaded
  check_loaded-ok path service bad_options w h = ground (arith, h)
  check_loaded-ok path service invalid w h = ground (arith, h)
  check_loaded-ok path service (project gs) w h = elim (Option-cases (gs service)) [
    | inl e ↦ ground (arith, h, e)
    | inr (svc, e) ↦ (gs, refl, svc, e, ground (arith, h, e))
  ]

  -- What the validation of a service has made sure of when it answers no error: the path is
  -- absolute and exists, the project loads and has the service, which has no port binding, no
  -- container name and an enabled health check, and its image field, where the service has an image
  -- and the file shows a field that is not empty, names `IMAGE_TAG`.
  pub validate-ok :
      (path service : Bytes) (w : W)
      → (validate host compose path service w).0 ≡ ok tt
      → (host.is_abs path ≡ true)
        × (compose.stat path w ≡ true)
        × (get_service : Bytes → Option Service) × (compose.load_project path w
            ≡ project get_service)
        × (svc : Service) × (get_service service ≡ some svc)
        × IsDeployable svc
        × ((image : Bytes)
            → svc.image ≢ []
            → raw_image_of compose service (host.read_file path w).0 ≡ some image
            → image ≢ []
            → contains (codes "IMAGE_TAG") image ≡ true)
  unfolding validate
  validate-ok path service w h = elim (Bool-cases (host.is_abs path)) [
    | inr a ↦ ground (arith, h, a)
    | inl a ↦ elim (Bool-cases (compose.stat path w)) [
      | inr s ↦ ground (arith, h, a, s)
      | inl s ↦
          let inner : (check_loaded host compose path service (compose.load_project path w) w).0
              ≡ ok tt =
            ground (arith, h, a, s) in
          let (gs, l, svc, g, c) = check_loaded-ok path service _ w inner in
          let (deployable, im) = check_service-ok path service svc w c in
          (a, s, gs, l, svc, g, deployable, λ image. check_image-ok path service image svc w im)
    ]
  ]
