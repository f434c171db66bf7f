-- ===== src/Effect/Types.antt =====
-- Errors, log lines and calls, as data. An error or a line has one constructor for each place of
-- the source that makes one, with what it prints (but for elapsed times).
use rollhook.Prelude.{ℕ, List, Bool, Option, ℤ}
use rollhook.Text.{Bytes}

-- The errors of the Docker client by the classes that the source tells apart (`cerrdefs`).
pub data Fault : Type 0 where
  not_modified not_found conflict other : Fault

pub data Err : Type 0 where
  -- internal/docker/api.go
  listing_running : Fault → Err
  listing_service : Bytes → Bytes → Fault → Err
  inspecting stopping removing : Bytes → Fault → Err
  pull_refused pull_stream listing_for_prune : Fault → Err
  pull_failed : Bytes → Err
  listing_images : Bytes → Fault → Err
  -- internal/jobs/steps/discover.go
  service_not_found no_labels : Bytes → Err
  missing_label : Bytes → Bytes → Err
  discovering : Err → Err
  -- internal/jobs/steps/validate.go
  not_absolute file_missing : Bytes → Err
  compose_options compose_invalid ports_exposed container_name_set no_healthcheck : Err
  service_missing : Bytes → Bytes → Err
  image_tag_missing : Bytes → Err
  -- internal/jobs/steps/rollout.go
  reading_env creating_env writing_env compose_up_failed context_done : Err
  prepare_env rollout_failed inspection_failed : Err → Err
  scale_short : ℕ → ℕ → Bytes → Err
  no_health unhealthy : Bytes → Err
  health_timeout : Bytes → ℤ → Err
  -- A bounded loop of the model ran out of rounds; no program error is this.
  out_of_fuel : Err

pub data Line : Type 0 where
  discovered : Bytes → Bytes → Line
  validate_failed validate_ok : Line
  pulling pull_progress : Bytes → Line
  scaling : Bytes → ℕ → ℕ → Bytes → Line
  compose_output : Bytes → Line
  waiting : Bytes → ℕ → ℕ → Line
  still_waiting healthy : Bytes → Line
  draining rolled_out : Bytes → Line
  stop_warning remove_warning : Bytes → Err → Line
  rollback_triggered rollback_error : Err → Line
  rollback_stopping : Bytes → Line
  env_not_removed : Line
  pruned : Bytes → Line
  prune_skipped prune_warning : Bytes → Fault → Line
  prune_failed executor_error : Err → Line
  executor_success : Bytes → Line
  queued : Bytes → Bytes → Line

-- The context of a call: the job's, or a fresh one with a timeout.
pub data Context : Type 0 where
  job_context background : Context

pub data Event : Type 0 where
  listed_containers : Bool → List (Bytes × Bytes) → Event
  -- With the health that the answer reports, if there is one.
  inspected : Bytes → Option Bytes → Event
  stopped removed : Context → Bytes → Event
  pulled : Bytes → Option (Bytes × Bytes × Bytes) → Event
  listed_images : List (Bytes × Bytes) → Event
  image_removed : Bytes → Event
  env_file_written : Bytes → Event
  env_file_removed : Event
  composed_up : Bytes → Bytes → ℕ → Event
  paused : ℕ → Event
  logged : Line → Event
