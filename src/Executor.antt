-- ===== src/Executor.antt =====
-- internal/jobs/executor.go: a job from its submission to its last status. The state is the outside
-- world, the table of jobs and the queue; a job of the queue stands for the call of `run` on it.
pub mod Keeps
pub mod Recorded
pub mod Submission
pub mod Notified
pub mod Tests
use rollhook.Prelude.{
  ℕ, ◌/◌, Bool, true, false, Option, none, some, List, [], ◌∷◌, Result, ok, err, if◌then◌else◌, ℤ,
  pos,
}
use rollhook.Text.{Bytes, codes}
use rollhook.Image.{extract_app}
use rollhook.Effect.{
  Io, Err, Event, logged, discovered, validate_failed, validate_ok, prune_failed, executor_error,
  executor_success, queued, pure, fail, attempt, log, ◌>>=◌, ◌>>◌,
}
use rollhook.Docker.{Docker, ImageSummary}
use rollhook.Docker.Pull.{PullEvent, pull}
use rollhook.Docker.Prune.{prune}
use rollhook.Host.{Host, env_int}
use rollhook.Discover.{DiscoveryResult, discover}
use rollhook.Validate.{Compose, validate}
use rollhook.Rollout.{rollout}
use rollhook.Store.{
  JobStatus, status_queued, status_running, status_success, status_failed, Failure, run_error, Job,
  Table, insert, update_status, update_discovery,
}
use rollhook.JobQueue.{Queue, QueueError, enqueue}

-- `NewJob` at the time `now`, in nanoseconds, with the identifier of `uuid.New`.
pub new_job : Bytes → ℕ → Bytes → Job
new_job id now image_tag = record {
  id = id;
  app = extract_app image_tag;
  status = status_queued;
  image_tag = image_tag;
  compose_path = none;
  service = none;
  error = none;
  created_at = now;
  updated_at = now;
}

-- What the executor is given: the libraries below it. `exec` answers whether the next SQL statement
-- succeeds; one that fails leaves the table as it is.
pub record Libraries (W : Type 0) : Type 0 where
  pub cli : Docker W
  pub host : Host W
  pub compose : Compose W
  pub decode : Bytes → Option PullEvent
  pub url_host : Bytes → Bytes
  pub sort : List ImageSummary → List ImageSummary
  pub exec : W → Bool × W
  pub make_log_dir : W → Bool × W

pub record State (W : Type 0) : Type 0 where
  pub world : W
  pub table : Table
  pub queue : Queue Job

pub data SubmitError : Type 0 where
  no_log_dir not_inserted : SubmitError
  not_enqueued : QueueError → SubmitError

module _ {W : Type 0} where
  unfoldable pub on_world {ℓ} : {A : Type ℓ} → Io W A → Io (State W) A
  on_world m s = let (r, es, w') = m s.world in (r, es, record s { world = w' })

  -- `Submit` behind the directory of the logs: the insertion, then the queue.
  pub answered :
      Result QueueError (Unit {0}) × Queue Job → State W → Result SubmitError (Unit {0}) × State W
  answered (ok _, q) s = (ok tt, record s { queue = q })
  answered (err e, q) s = (err (not_enqueued e), record s { queue = q })

  pub inserted : Job → Option Table → State W → Result SubmitError (Unit {0}) × State W
  unfolding answered
  inserted job none s = (err not_inserted, s)
  inserted job (some table) s = answered (enqueue job s.queue) (record s { table = table })

  pub insert_job : Job → Bool → State W → Result SubmitError (Unit {0}) × State W
  unfolding inserted
  insert_job job false s = (err not_inserted, s)
  insert_job job true s = inserted job (insert job s.table) s

module _ {W : Type 0} (lib : Libraries W) where
  -- One SQL statement, at the second in which it runs.
  pub run_sql : (ℕ → Table → Table) → Io (State W) Bool
  run_sql f s =
      let (done, w') = lib.exec s.world in
      (
        ok done,
        [],
        record s {
          world = w';
          table = if done then f (lib.host.clock w' / 1000) s.table else s.table;
        },
      )

  -- `if err := steps.Validate(…); err != nil { … }`
  pub validated : Result Err (Unit {0}) → Io (State W) (Unit {0})
  validated (ok _) = pure tt
  validated (err e) = do log validate_failed; fail e

  pub log_prune : Result Err (Unit {0}) → Io (State W) (Unit {0})
  log_prune (ok _) = pure tt
  log_prune (err e) = log (prune_failed e)

  pub image_keep_count : ℤ
  image_keep_count = env_int (lib.host.getenv (codes "ROLLHOOK_IMAGE_KEEP_COUNT")) (pos 5)

  -- Steps 2 to 5, behind the discovery.
  pub deploy : Bytes → Job → DiscoveryResult → Io (State W) (Unit {0})
  unfolding validated log_prune
  deploy secret job result = do
    answer ← attempt (on_world (validate lib.host lib.compose result.compose_path result.service))
    validated answer
    log validate_ok
    on_world (
        pull lib.cli lib.decode lib.url_host (lib.host.getenv (codes "ROLLHOOK_URL")) secret
          job.image_tag)
    on_world
        (rollout lib.cli lib.host result.compose_path result.service result.project job.image_tag)
    answer ← attempt (on_world (prune lib.cli lib.sort job.image_tag image_keep_count))
    log_prune answer

  -- A failure to store the discovery is only logged by the server.
  pub execute : Bytes → Job → Io (State W) (Unit {0})
  unfolding deploy run_sql
  execute secret job = do
    result ← on_world (discover lib.cli job.image_tag)
    run_sql (λ now. update_discovery now job.id result.compose_path result.service)
    log (discovered result.service result.compose_path)
    deploy secret job result

  -- The last status, in the table and in the job that `notifier.Notify` is given.
  pub finish : Job → Result Err (Unit {0}) → Io (State W) Job
  unfolding run_sql
  finish job (ok _) = do
    log (executor_success job.app)
    run_sql (λ now. update_status now job.id status_success none)
    pure (record job { status = status_success; error = none })
  finish job (err e) = do
    log (executor_error e)
    run_sql (λ now. update_status now job.id status_failed (some (run_error e)))
    pure (record job { status = status_failed; error = some (run_error e) })

  pub run : Bytes → Job → Io (State W) Job
  unfolding execute finish
  run secret job = do
    run_sql (λ now. update_status now job.id status_running none)
    answer ← attempt (execute secret job)
    finish job answer

  -- `Submit`; the first line of the log is best effort.
  pub submit : Job → State W → Result SubmitError (Unit {0}) × State W
  unfolding insert_job
  submit job s =
      let (made, w') = lib.make_log_dir s.world in
      if made
      then (let (done, w'') = lib.exec w' in insert_job job done (record s { world = w'' }))
      else (err no_log_dir, record s { world = w' })
