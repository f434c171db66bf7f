-- ===== src/Executor/Tests.antt =====
-- A submission and a run, with its notifications, on the small machine.
use rollhook.Prelude.{true, false, none, some, [], ◌∷◌, ok, ◌≡◌, refl}
use rollhook.Text.{codes}
use rollhook.Store.{Job, find_row, status_queued}
use rollhook.Store.Rows.{find_row-head}
use rollhook.Executor.{State, execute, run, submit}
use rollhook.Executor.Recorded.{HasRow, begin, Says, run-recorded}
use rollhook.Executor.Submission.{Left, submit-Left}
use rollhook.Notifier.{Client}
use rollhook.Fixtures.{World, libraries, before}

abbrev job : Job
job = record {
  id = codes "j1";
  app = codes "app";
  status = status_queued;
  image_tag = codes "r.io/app:v2";
  compose_path = none;
  service = none;
  error = none;
  created_at = 0;
  updated_at = 0;
}

abbrev ready : State World
ready = record {
  world = before;
  table = job ∷ [];
  queue = record { buffer = []; running = none; drained = false; exited = false; waiting = false };
}

has_row : HasRow (codes "j1") (job ∷ [])
has_row = (job, found)
  where
    found : find_row (codes "j1") (job ∷ []) ≡ some job
    found = find_row-head job []

run-recorded_example :
    (row : Job) × (job' : Job) × ((run libraries (codes "s3cret") job ready).0 ≡ ok job')
    × (find_row (codes "j1") (run libraries (codes "s3cret") job ready).2.table ≡ some row)
    × Says libraries
        (execute libraries (codes "s3cret") job (begin libraries job ready)).0
        row.status
        row.error
    × Says libraries
        (execute libraries (codes "s3cret") job (begin libraries job ready)).0
        job'.status
        job'.error
run-recorded_example = run-recorded libraries (codes "s3cret") job ready (λ w. refl) has_row

submit-Left_example : Left job (job ∷ []) ready.queue (submit libraries job ready)
submit-Left_example = submit-Left libraries job ready

abbrev client : Client World
client = record {
  accepts = λ url. true;
  post = λ request w. (some 200, w);
  error_text = λ f. codes "failed";
  clock = λ w. 0;
}
