-- ===== src/Rollout.antt =====
-- internal/jobs/steps/rollout.go: the rolling deploy of one Compose service.
pub mod Health
pub mod Seen
pub mod Quiet
pub mod Touches
pub mod Polls
pub mod Rollback
pub mod Outcome
pub mod Ranged
pub mod Success
pub mod Tests
use rollhook.Prelude.{
  ℕ, zero, suc, ◌+◌, ◌-◌, ◌*◌, ◌/◌, Bool, true, false, not, ◌||◌, Option, none, some, List, [], ◌∷◌,
  ◌++◌, map, Result, ok, err, ℤ, pos, negsuc, ltb, leb, ◌==◌, if◌then◌else◌, length, select, ◌^◌,
  int64,
}
use rollhook.Text.{Bytes, codes, beq, split, trim_space}
use rollhook.Image.{short_id}
use rollhook.Effect.{
  Io, Err, Event, Line, prepare_env, compose_up_failed, rollout_failed, inspection_failed,
  scale_short, no_health, unhealthy, health_timeout, out_of_fuel, scaling, compose_output, waiting,
  still_waiting, healthy, draining, rolled_out, stop_warning, remove_warning, rollback_triggered,
  rollback_error, rollback_stopping, env_not_removed, Context, job_context, background,
  env_file_removed, composed_up, logged, pure, fail, attempt, log, deferring, ◌>>=◌, ◌>>◌,
}
use rollhook.Docker.{
  Docker, Summary, Inspect, list_service_containers, inspect_container, stop_container,
  remove_container,
}
use rollhook.Host.{Host, env_int, now, pause}
use rollhook.EnvFile.{write_temp_env}

-- First deploy: one replica; later ones: twice as many.
pub scale_target : ℕ → ℕ
scale_target count = if count == 0 then 1 else count * 2

abbrev poll_interval_ms : ℕ
poll_interval_ms = 1000

abbrev default_health_timeout_ms : ℤ
default_health_timeout_ms = pos 60000

pub member : Bytes → List Bytes → Bool
member id [] = false
member id (x ∷ ids) = beq x id || member id ids

-- The keys of the map `oldIDs`: each identifier once.
pub distinct : List Bytes → List Bytes
distinct [] = []
distinct (id ∷ ids) = let rest = distinct ids in if member id rest then rest else id ∷ rest

-- `time.Duration(timeoutMS) * time.Millisecond`, in the `int64` of nanoseconds; -(n + 1) is
-- congruent to (n + 1) * (2 ^ 64 - 1).
pub health_duration : ℤ → ℤ
health_duration (pos timeout) = int64 (timeout * 1000000)
health_duration (negsuc n) = int64 ((n + 1) * (2 ^ 64 - 1) * 1000000)

-- `time.Now().After(deadline)`, where the deadline is the duration, in nanoseconds, after the
-- start; the clock is in milliseconds.
pub past_deadline : ℤ → ℕ → ℕ → Bool
past_deadline (pos duration) start time = ltb (start * 1000000 + duration) (time * 1000000)
past_deadline (negsuc _) start time = true

module _ {W : Type 0} (cli : Docker W) (host : Host W) where
  -- A round of `waitHealthy` behind the inspection; `again` is the rest of the loop.
  pub verdict : Option Bytes → Bytes → Io W (Unit {0}) → Io W (Unit {0})
  verdict none id again = fail (no_health (short_id id))
  verdict (some status) id again =
      if beq status (codes "healthy")
      then log (healthy (short_id id))
      else if beq status (codes "unhealthy")
      then fail (unhealthy (short_id id))
      else (pause host poll_interval_ms >> again)

  pub inspection : Result Err Inspect → Io W Inspect
  inspection (ok i) = pure i
  inspection (err e) = fail (inspection_failed e)

  pub progress : Bool → Bytes → Io W (Unit {0})
  progress due id = if due then log (still_waiting (short_id id)) else pure tt

  -- A round behind the test of the deadline.
  pub health_round : Bool → Bytes → Io W (Unit {0}) → Io W (Unit {0})
  unfolding progress inspection verdict
  health_round due id again = do
    progress due id
    answer ← attempt (inspect_container cli id)
    detail ← inspection answer
    verdict detail.health id again

  -- The loop of `waitHealthy`; the last argument is `lastProgress`.
  pub health_loop : ℕ → Bytes → ℤ → ℕ → ℕ → Io W (Unit {0})
  unfolding health_round past_deadline health_duration
  health_loop zero id timeout start last = fail out_of_fuel
  health_loop (suc fuel) id timeout start last = do
    time ← now host
    let due = leb (last + 10000) time
    let rest = health_round due id (health_loop fuel id timeout start (if due then time else last))
    if past_deadline (health_duration timeout) start time
        then fail (health_timeout (short_id id) timeout)
        else rest

  -- Enough rounds for the duration: each takes at least one poll interval.
  abbrev health_rounds : ℤ → ℕ
  health_rounds (pos duration) = suc (suc (duration / (poll_interval_ms * 1000000)))
  health_rounds (negsuc _) = 1

  pub wait_healthy : Bytes → ℤ → Io W (Unit {0})
  unfolding health_loop
  wait_healthy id timeout = do
    start ← now host
    health_loop (health_rounds (health_duration timeout)) id timeout start start

  -- `if err := …; err != nil { logFn(…) }`
  pub log_error : (Err → Line) → Result Err (Unit {0}) → Io W (Unit {0})
  log_error line (ok _) = pure tt
  log_error line (err e) = log (line e)

  pub rollback_each : List Bytes → Io W (Unit {0})
  unfolding log_error
  rollback_each [] = pure tt
  rollback_each (id ∷ ids) = do
    log (rollback_stopping (short_id id))
    s ← attempt (stop_container cli background id)
    log_error rollback_error s
    r ← attempt (remove_container cli background id)
    log_error rollback_error r
    rollback_each ids

  pub rollback_containers : List Bytes → Err → Io W (Unit {0})
  unfolding rollback_each
  rollback_containers ids reason = do log (rollback_triggered reason); rollback_each ids

  pub find_new_containers : Bytes → Bytes → List Bytes → Io W (List Summary)
  find_new_containers project service old_ids = do
    all ← list_service_containers cli project service
    pure (select (λ c. not (member c.id old_ids)) all)

  -- The ten further attempts; `found` is how many the last one found.
  pub poll_again : ℕ → ℕ → Bytes → Bytes → List Bytes → ℕ → Io W (List Summary)
  unfolding find_new_containers
  poll_again zero found project service old_ids expected = fail (scale_short found expected service)
  poll_again (suc attempts) found project service old_ids expected = do
    pause host 500
    new ← find_new_containers project service old_ids
    let rest = poll_again attempts (length new) project service old_ids expected
    if leb expected (length new) then pure new else rest

  pub poll_new_containers : Bytes → Bytes → List Bytes → ℕ → Io W (List Summary)
  unfolding poll_again
  poll_new_containers project service old_ids expected = do
    new ← find_new_containers project service old_ids
    if leb expected (length new)
        then pure new
        else poll_again 10 (length new) project service old_ids expected

  -- Step 4 for one container: a failure rolls all new containers back.
  pub or_roll_back : List Bytes → Result Err (Unit {0}) → Io W (Unit {0})
  or_roll_back new_ids (ok _) = pure tt
  or_roll_back new_ids (err e) = do rollback_containers new_ids e; fail (rollout_failed e)

  pub wait_all : ℤ → List Bytes → ℕ → List Bytes → Io W (Unit {0})
  unfolding or_roll_back
  wait_all timeout new_ids i [] = pure tt
  wait_all timeout new_ids i (id ∷ ids) = do
    log (waiting (short_id id) i (length new_ids))
    answer ← attempt (wait_healthy id timeout)
    or_roll_back new_ids answer
    wait_all timeout new_ids (i + 1) ids

  -- Step 5. An error is logged and the next container follows.
  pub drain_all : List Bytes → Io W (Unit {0})
  unfolding log_error
  drain_all [] = pure tt
  drain_all (id ∷ ids) = do
    log (draining (short_id id))
    s ← attempt (stop_container cli job_context id)
    log_error (stop_warning (short_id id)) s
    r ← attempt (remove_container cli job_context id)
    log_error (remove_warning (short_id id)) r
    drain_all ids

  -- The lines of Compose's output that are not blank.
  pub log_output : List Bytes → Io W (Unit {0})
  log_output [] = pure tt
  log_output (l ∷ ls) = do
    if beq (trim_space l) [] then pure tt else log (compose_output (trim_space l))
    log_output ls

  pub or_output : Option Bytes → Io W (Unit {0})
  unfolding log_output
  or_output none = pure tt
  or_output (some output) = do log_output (split 10 (trim_space output)); fail compose_up_failed

  pub compose_up : Bytes → Bytes → Bytes → ℕ → Io W (Unit {0})
  unfolding or_output
  compose_up compose_path env_file service scale = do
    output ← λ w.
        let (o, w') =
          host.compose_up (host.path_dir compose_path) compose_path env_file service scale w in
        (ok o, composed_up compose_path service scale ∷ [], w')
    or_output output

  -- Steps 2 to 4.
  pub bring_up : ℤ → Bytes → Bytes → Bytes → List Bytes → Bytes → Io W (Unit {0})
  unfolding compose_up poll_new_containers wait_all
  bring_up timeout compose_path service project old_ids env_file = do
    let scale = scale_target (length old_ids)
    compose_up compose_path env_file service scale
    let expected = if ltb (scale - length old_ids) 1 then 1 else scale - length old_ids
    new ← poll_new_containers project service old_ids expected
    let new_ids = map (λ (c : Summary). c.id) new
    wait_all timeout new_ids 1 new_ids

  -- Step 5 and the last line of the log.
  pub drain_old : Bytes → List Bytes → Io W (Unit {0})
  unfolding drain_all
  drain_old service old_ids = do drain_all (host.range_order old_ids); log (rolled_out service)

  pub prepared : Result Err Bytes → Io W Bytes
  prepared (ok name) = pure name
  prepared (err e) = fail (prepare_env e)

  pub remove_env : Bytes → Io W (Unit {0})
  remove_env name = do
    removed ← λ w. let (r, w') = host.remove_file name w in (ok r, env_file_removed ∷ [], w')
    if removed then pure tt else log env_not_removed

  -- `Rollout` behind the first listing. The deferred removal of the env file runs on every way out
  -- behind its creation.
  pub replace : ℤ → Bytes → Bytes → Bytes → Bytes → List Summary → Io W (Unit {0})
  replace timeout compose_path service project image_tag old = do
    let old_ids = distinct (map (λ (c : Summary). c.id) old)
    log (scaling service (length old_ids) (scale_target (length old_ids)) image_tag)
    answer ←
        attempt (
          write_temp_env host (host.path_join (host.path_dir compose_path) (codes ".env"))
            image_tag)
    env_file ← prepared answer
    deferring
        (bring_up timeout compose_path service project old_ids env_file
          >> drain_old service old_ids)
        (remove_env env_file)

  pub health_timeout_ms : ℤ
  health_timeout_ms =
      env_int (host.getenv (codes "ROLLHOOK_HEALTH_TIMEOUT_MS")) default_health_timeout_ms

  pub rollout : Bytes → Bytes → Bytes → Bytes → Io W (Unit {0})
  rollout compose_path service project image_tag = do
    old ← list_service_containers cli project service
    replace health_timeout_ms compose_path service project image_tag old
