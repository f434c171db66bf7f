-- ===== src/Api/Jobs.antt =====
-- internal/api/jobs.go: the handlers of `GET /jobs` and `GET /jobs/{id}`, and
-- internal/api/health.go with the flag of internal/state/state.go.
use rollhook.Prelude.{ℕ, Bool, not, ◌&&◌, ◌||◌, Option, none, some, List, [], if◌then◌else◌, ℤ}
use rollhook.Text.{Bytes, codes, beq}
use rollhook.Store.{
  status_queued, status_running, status_success, status_failed, status_text, Job, Table, get, list,
}

-- What a handler returns: the body, or `huma.NewError` with its status.
pub data Reply (A : Type 0) : Type 0 where
  body : A → Reply A
  http_error : ℕ → Reply A

-- `validStatuses[status]`
pub is_valid_status : Bytes → Bool
is_valid_status status =
    beq status (status_text status_queued)
    || beq status (status_text status_running)
    || beq status (status_text status_success)
    || beq status (status_text status_failed)

-- `GET /jobs`; `query_ok` tells whether the query succeeds. The empty list is not `null`.
pub list_jobs : (Table → Table) → Bool → Bytes → Bytes → ℤ → Table → Reply (List Job)
unfolding is_valid_status
list_jobs order query_ok app status limit rows =
    if not (beq status []) && not (is_valid_status status)
    then http_error 400
    else if query_ok
    then body (list order app status limit rows)
    else http_error 500

pub found_job : Option Job → Reply Job
found_job none = http_error 404
found_job (some job) = body job

-- `GET /jobs/{id}`
pub get_job : Bool → Bytes → Table → Reply Job
unfolding found_job
get_job query_ok id rows = if query_ok then found_job (get id rows) else http_error 500

pub record Health : Type 0 where
  pub status : ℕ
  pub text : Bytes
  pub version : Bytes

-- `GET /health`, with the value of VERSION and the flag `shuttingDown`.
pub health : Bytes → Bool → Health
health version_env shutting_down =
    let version = if beq version_env [] then codes "dev" else version_env in
    if shutting_down
    then record { status = 503; text = codes "shutting_down"; version = version }
    else record { status = 200; text = codes "ok"; version = version }
