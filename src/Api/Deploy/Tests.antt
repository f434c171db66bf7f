-- ===== src/Api/Deploy/Tests.antt =====
-- A request that waits, and the theorems at it.
use rollhook.Prelude.{false, none, some, [], ◌∷◌, ◌++◌, inl, ◌≡◌, refl}
use rollhook.Text.{codes}
use rollhook.Store.{status_queued, Job, find_row, get}
use rollhook.Store.Rows.{find_row-head}
use rollhook.Executor.{State, execute, run}
use rollhook.Executor.Recorded.{HasRow, begin}
use rollhook.Fixtures.{World, libraries, before}
use rollhook.Api.Jobs.{body}
use rollhook.Api.Deploy.{DeployOutput, polled, wait}
use rollhook.Api.Deploy.Verdict.{Reports, wait-run}

abbrev job : Job
job = record {
  id = codes "j1";
  app = codes "app";
  status = status_queued;
  image_tag = codes "r.io/app:v2";
  compose_path = none;
  service = none;
  error = none;
  created_at = 0;
  updated_at = 0;
}

abbrev ready : State World
ready = record {
  world = before;
  table = job ∷ [];
  queue = record { buffer = []; running = none; drained = false; exited = false; waiting = false };
}

has_row : HasRow (codes "j1") (job ∷ [])
has_row = (job, found)
  where
    found : find_row (codes "j1") (job ∷ []) ≡ some job
    found = find_row-head job []

wait-run_example :
    (out : DeployOutput) × (wait job (
        (polled none ∷ polled (some job) ∷ [])
        ++ polled (get (codes "j1") (run libraries (codes "s3cret") job ready).2.table) ∷ [])
      ≡ some (body out))
    × Reports (execute libraries (codes "s3cret") job (begin libraries job ready)).0 out
wait-run_example =
    wait-run libraries (codes "s3cret") job ready (polled none ∷ polled (some job) ∷ []) (λ w. refl)
      has_row (tt, (inl refl, tt))
