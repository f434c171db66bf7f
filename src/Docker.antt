-- ===== src/Docker.antt =====
-- internal/docker/api.go over the Docker client, which is a library: its calls are parameters, over
-- any state of the outside world, with no law assumed.
pub mod Pull
pub mod Prune
use rollhook.Prelude.{
  ℕ, Bool, true, false, Option, none, some, List, [], ◌∷◌, ◌++◌, Result, ok, err,
}
use rollhook.Text.{Bytes, codes}
use rollhook.Image.{short_id}
use rollhook.Effect.{
  Io, Fault, not_modified, not_found, Err, listing_running, listing_service, inspecting, stopping,
  removing, Event, Context, listed_containers, inspected, stopped, removed, call, map_err,
}

-- The fields of `container.Summary` that the program reads.
pub record Summary : Type 0 where
  pub id : Bytes
  pub image : Bytes
  pub image_id : Bytes
  pub names : List Bytes

-- The fields of `container.InspectResponse` that the program reads: `Config.Labels`, which may be
-- nil, and `State.Health.Status`, where `Health` may be nil.
pub record Inspect : Type 0 where
  pub labels : Option (List (Bytes × Bytes))
  pub health : Option Bytes

-- The fields of `image.Summary` that the program reads; `created` is a Unix time from 1970 on.
pub record ImageSummary : Type 0 where
  pub id : Bytes
  pub repo_tags : List Bytes
  pub created : ℕ

abbrev pub Filters : Type 0
Filters = List (Bytes × Bytes)

-- The calls of the Docker client. `context_done` is `ctx.Err() != nil` of the job's context.
pub record Docker (W : Type 0) : Type 0 where
  pub container_list : Bool → Filters → W → Result Fault (List Summary) × W
  pub container_inspect : Bytes → W → Result Fault Inspect × W
  pub container_stop : Context → Bytes → W → Result Fault (Unit {0}) × W
  pub container_remove : Context → Bytes → W → Result Fault (Unit {0}) × W
  pub image_pull :
      Bytes → Option (Bytes × Bytes × Bytes) → W → Result Fault (List Bytes × Option Fault) × W
  pub image_list : Filters → W → Result Fault (List ImageSummary) × W
  pub image_remove : Bytes → W → Result Fault (Unit {0}) × W
  pub context_done : W → Bool

-- The health that an answer reports.
reported : Result Fault Inspect → Option Bytes
reported (ok i) = i.health
reported (err _) = none

module _ {W : Type 0} (cli : Docker W) where
  unfoldable pub list_running_containers : Io W (List Summary)
  list_running_containers =
      call (listed_containers false []) (cli.container_list false []) listing_running

  unfoldable pub list_service_containers : Bytes → Bytes → Io W (List Summary)
  list_service_containers project service =
      call (listed_containers true filters) (cli.container_list true filters)
        (listing_service project service)
    where
      filters : Filters
      filters =
          (codes "label", codes "com.docker.compose.project=" ++ project)
          ∷ (codes "label", codes "com.docker.compose.service=" ++ service)
          ∷ []

  unfoldable pub inspect_container : Bytes → Io W Inspect
  unfolding reported
  inspect_container id w =
      let (r, w') = cli.container_inspect id w in
      (map_err (inspecting (short_id id)) r, inspected id (reported r) ∷ [], w')

  -- An already stopped container is a success.
  accept_not_modified : Result Fault (Unit {0}) → Result Fault (Unit {0})
  accept_not_modified (err not_modified) = ok tt
  accept_not_modified r = r

  unfoldable pub stop_container : Context → Bytes → Io W (Unit {0})
  unfolding accept_not_modified
  stop_container ctx id =
      call (stopped ctx id)
        (λ w. let (r, w') = cli.container_stop ctx id w in (accept_not_modified r, w'))
        (stopping (short_id id))

  -- An already removed container is a success.
  accept_not_found : Result Fault (Unit {0}) → Result Fault (Unit {0})
  accept_not_found (err not_found) = ok tt
  accept_not_found r = r

  unfoldable pub remove_container : Context → Bytes → Io W (Unit {0})
  unfolding accept_not_found
  remove_container ctx id =
      call (removed ctx id)
        (λ w. let (r, w') = cli.container_remove ctx id w in (accept_not_found r, w'))
        (removing (short_id id))
