-- ===== src/Api/Deploy.antt =====
-- internal/api/deploy.go: `POST /deploy`, which submits a job and, unless the request is
-- asynchronous, waits for its end, and the length of that wait.
pub mod Verdict
pub mod Timeout
pub mod Tests
use rollhook.Prelude.{
  ℕ, ◌+◌, ◌-◌, ◌*◌, ◌%◌, ◌^◌, Bool, true, false, Option, none, some, List, [], ◌∷◌, Result, ok, err,
  if◌then◌else◌, ltb, ℤ, pos, negsuc, int64,
}
use rollhook.Text.{Bytes, codes, beq}
use rollhook.Text.Number.{parse_int}
use rollhook.Store.{
  JobStatus, status_queued, status_running, status_success, status_failed, Failure, Job, Table,
}
use rollhook.Executor.{
  Libraries, State, SubmitError, no_log_dir, not_inserted, not_enqueued, new_job, submit,
}
use rollhook.Api.Jobs.{Reply, body, http_error}

-- `DeployOutput`
pub record DeployOutput : Type 0 where
  pub status : ℕ
  pub job_id : Bytes
  pub app : Bytes
  pub job_status : JobStatus
  pub error : Option Failure

-- What one `select` of the loop takes; a poll has what `store.Get` returns, `none` also for an
-- error.
pub data Tick : Type 0 where
  request_done deadline : Tick
  polled : Option Job → Tick

abbrev pub queued_output : Job → DeployOutput
queued_output job = record {
  status = 200;
  job_id = job.id;
  app = job.app;
  job_status = job.status;
  error = none;
}

-- What the loop makes of a poll; `none` is to go on.
pub completed : Job → Option Job → Option DeployOutput
completed job none = none
completed job (some row) = elim row.status [
  | status_queued ↦ none
  | status_running ↦ none
  | status_success ↦
      some (record (queued_output job) { job_status = row.status; error = row.error })
  | status_failed ↦
      some (record (queued_output job) { status = 500; job_status = row.status; error = row.error })
]

-- The loop; `none` is that it still waits after these ticks.
pub wait : Job → List Tick → Option (Reply DeployOutput)
unfolding completed
wait job [] = none
wait job (request_done ∷ ticks) = some (http_error 503)
wait job (deadline ∷ ticks) = some (http_error 500)
wait job (polled row ∷ ticks) =
    let rest = wait job ticks in
    elim (completed job row) [ none ↦ rest | some out ↦ some (body out) ]

-- What is answered at once, and the job to wait for.
pub submit_status : SubmitError → ℕ
submit_status no_log_dir = 500
submit_status not_inserted = 500
submit_status (not_enqueued _) = 503

pub submitted : Bool → Job → List Tick → Result SubmitError (Unit {0}) → Option (Reply DeployOutput)
unfolding wait submit_status
submitted async job ticks (err e) = some (http_error (submit_status e))
submitted true job ticks (ok _) = some (body (queued_output job))
submitted false job ticks (ok _) = wait job ticks

module _ {W : Type 0} (lib : Libraries W) where
  -- `POST /deploy`, with the identifier of `uuid.New` and the time.
  pub post_deploy :
      Bytes → ℕ → Bytes → Bool → List Tick → State W → Option (Reply DeployOutput) × State W
  unfolding submitted
  post_deploy id now image_tag async ticks s =
      if beq image_tag []
      then (some (http_error 400), s)
      else (let job = new_job id now image_tag in
          let (answer, s') = submit lib job s in (submitted async job ticks answer, s'))

-- `strconv.Atoi` of a variable, when the result is used: it is greater than 0.
pub positive_env : Bytes → Option ℕ
positive_env v = elim (parse_int v) [
  | none ↦ none
  | some n ↦ elim n [ pos k ↦ if ltb 0 k then some k else none | negsuc _ ↦ none ]
]

abbrev pub minute : ℕ
minute = 60000000000

abbrev pub millisecond : ℕ
millisecond = 1000000

-- `syncTimeout`, in nanoseconds, with the values of ROLLHOOK_SYNC_TIMEOUT_MIN and
-- ROLLHOOK_HEALTH_TIMEOUT_MS. An unset variable is no number, and it does not parse.
pub sync_timeout : Bytes → Bytes → ℤ
unfolding positive_env int64
sync_timeout sync_min health_ms = elim (positive_env sync_min) [
  | some n ↦ int64 (n * minute)
  | none ↦ elim (positive_env health_ms) [
    | some n ↦ int64 (n * millisecond + 5 * minute)
    | none ↦ int64 (60000 * millisecond + 5 * minute)
  ]
]
