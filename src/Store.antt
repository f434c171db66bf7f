-- ===== src/Store.antt =====
-- internal/db/jobs.go: the table of jobs. Each operation is what its SQL statement says, on the
-- list of rows in the order of their insertion. A time column holds RFC 3339 text, which is exact
-- to the second: it is the whole seconds since 1970, and a `time.Time` is in nanoseconds.
pub mod Rows
pub mod Found
pub mod Listing
pub mod Refinement
pub mod Schema
pub mod Logs
pub mod Tests
use rollhook.Prelude.{
  ℕ, ◌*◌, ◌/◌, Bool, true, false, not, ◌&&◌, Option, none, some, List, [], ◌∷◌, ◌++◌, map, ltb,
  if◌then◌else◌, select, take, ℤ, pos, negsuc, ◌==◌,
}
use rollhook.Text.{Bytes, codes, beq}
use rollhook.Effect.{Err}

pub data JobStatus : Type 0 where
  status_queued status_running status_success status_failed : JobStatus

-- The text of the status column.
abbrev pub status_text : JobStatus → Bytes
status_text status_queued = codes "queued"
status_text status_running = codes "running"
status_text status_success = codes "success"
status_text status_failed = codes "failed"

-- The text of the error column: of an error of the run, or of the startup's clean-up.
pub data Failure : Type 0 where
  run_error : Err → Failure
  interrupted : Failure

-- `Job`, and the row of a job. The times are nanoseconds in a job and seconds in a row.
pub record Job : Type 0 where
  pub id : Bytes
  pub app : Bytes
  pub status : JobStatus
  pub image_tag : Bytes
  pub compose_path : Option Bytes
  pub service : Option Bytes
  pub error : Option Failure
  pub created_at : ℕ
  pub updated_at : ℕ

abbrev pub Table : Type 0
Table = List Job

abbrev second : ℕ
second = 1000000000

-- The row that `INSERT` makes, and the job that `scanJob` makes of a row.
abbrev pub to_row : Job → Job
to_row job = record job {
  compose_path = none;
  service = none;
  error = none;
  created_at = job.created_at / second;
  updated_at = job.updated_at / second;
}

abbrev pub scan_job : Job → Job
scan_job row = record row {
  created_at = row.created_at * second;
  updated_at = row.updated_at * second;
}

-- `WHERE id = ?`
pub find_row : Bytes → Table → Option Job
find_row id [] = none
find_row id (row ∷ rows) = let rest = find_row id rows in if beq row.id id then some row else rest

-- `UPDATE … WHERE …`
pub update_rows : (Job → Bool) → (Job → Job) → Table → Table
update_rows p f [] = []
update_rows p f (row ∷ rows) = (if p row then f row else row) ∷ update_rows p f rows

-- `id` is the primary key: `none` is the error of a second row with it.
pub insert : Job → Table → Option Table
insert job rows = elim (find_row job.id rows) [
  | some _ ↦ none
  | none ↦ some (rows ++ to_row job ∷ [])
]

pub get : Bytes → Table → Option Job
get id rows = elim (find_row id rows) [ none ↦ none | some row ↦ some (scan_job row) ]

-- `now` is the second of the statement.
pub update_status : ℕ → Bytes → JobStatus → Option Failure → Table → Table
update_status now id status error =
    update_rows (λ row. beq row.id id)
      (λ row. record row { status = status; error = error; updated_at = now })

pub update_discovery : ℕ → Bytes → Bytes → Bytes → Table → Table
update_discovery now id compose_path service =
    update_rows (λ row. beq row.id id)
      (λ row. record row {
        compose_path = some compose_path;
        service = some service;
        updated_at = now;
      })

pub is_running : Job → Bool
is_running row = beq (status_text row.status) (codes "running")

pub mark_interrupted_jobs_failed : ℕ → Table → Table
mark_interrupted_jobs_failed now =
    update_rows is_running
      (λ row. record row { status = status_failed; error = some interrupted; updated_at = now })

-- `limit <= 0` stands for 50.
pub list_limit : ℤ → ℕ
list_limit (pos n) = if n == 0 then 50 else n
list_limit (negsuc _) = 50

-- The conditions of the `WHERE` clause: one for each filter that is not empty.
pub matches : Bytes → Bytes → Job → Bool
matches app status row =
    (if beq app [] then true else beq row.app app)
    && (if beq status [] then true else beq (status_text row.status) status)

-- `order` is `ORDER BY created_at DESC`, which may put rows of the same second in any order.
pub list : (Table → Table) → Bytes → Bytes → ℤ → Table → List Job
list order app status limit rows =
    map scan_job (take (list_limit limit) (order (select (matches app status) rows)))
