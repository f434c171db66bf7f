-- ===== src/Store/Tests.antt =====
-- A table of two jobs, and the theorem at it.
use rollhook.Prelude.{none, List, [], ◌∷◌, ◌≡◌}
use mathlib.Core.Option
use rollhook.Text.{Bytes, codes}
use rollhook.Store.{Job, Table, JobStatus, status_queued, status_running, find_row, scan_job, get}
use rollhook.Store.Refinement.{
  Statement, insert_job, set_status, fail_running, apply_all, spec_all, get-apply_all,
}

abbrev job : Bytes → JobStatus → Job
job id status = record {
  id = id;
  app = codes "app";
  status = status;
  image_tag = codes "r.io/app:v2";
  compose_path = none;
  service = none;
  error = none;
  created_at = 1500000000;
  updated_at = 0;
}

abbrev queued_job : Job
queued_job = job (codes "j1") status_queued

abbrev running_job : Job
running_job = job (codes "j2") status_running

abbrev table : Table
table = queued_job ∷ running_job ∷ []

abbrev statements : List Statement
statements =
    insert_job (job (codes "j3") status_queued)
    ∷ set_status 9 (codes "j3") status_running none
    ∷ insert_job (job (codes "j3") status_queued)
    ∷ fail_running 12
    ∷ []

get-apply_all_example :
    get (codes "j3") (apply_all statements table)
    ≡ Option.map scan_job (spec_all statements (codes "j3") (find_row (codes "j3") table))
get-apply_all_example = get-apply_all statements (codes "j3") table
