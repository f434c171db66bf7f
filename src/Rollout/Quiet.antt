-- ===== src/Rollout/Quiet.antt =====
-- The parts of a rollout that stop and remove no container.
use rollhook.Prelude.{
  ◌+◌, ℕ, zero, suc, Bool, Option, none, some, List, [], ◌∷◌, Result, ok, err, ℤ, arith, length,
  leb,
}
use rollhook.Text.{Bytes, beq, trim_space}
use rollhook.Effect.{Io, Err, Event, stopped, removed, Line}
use rollhook.Effect.Emits.{
  Emits, Emits-pure, Emits-fail, Emits-log, Emits-then, Emits-if, Emits-attempt, emits_rules,
}
use rollhook.Docker.{Docker, Inspect, list_service_containers, inspect_container}
use rollhook.Host.{Host, now, pause}
use rollhook.EnvFile.{write_temp_env}
use rollhook.Rollout.{
  health_duration, past_deadline, verdict, inspection, progress, health_round, health_loop,
  wait_healthy, log_error, find_new_containers, poll_again, poll_new_containers, log_output,
  or_output, compose_up, prepared, remove_env,
}

-- Every event but the stop and the removal of a container.
abbrev pub IsQuiet : Event → Type 0
IsQuiet (stopped _ _) = ⊥
IsQuiet (removed _ _) = ⊥
IsQuiet _ = Unit

module _ {W : Type 0} (cli : Docker W) (host : Host W) where
  pub now-IsQuiet : Emits IsQuiet (now host)
  unfolding now
  now-IsQuiet = record { at = λ w. tt }

  pub pause-IsQuiet : (ms : ℕ) → Emits IsQuiet (pause host ms)
  unfolding pause
  pause-IsQuiet ms = record { at = λ w. (tt, tt) }

  pub inspect-IsQuiet : (id : Bytes) → Emits IsQuiet (inspect_container cli id)
  unfolding inspect_container
  inspect-IsQuiet id = record { at = λ w. (tt, tt) }

  pub list-IsQuiet :
      (project service : Bytes) → Emits IsQuiet (list_service_containers cli project service)
  unfolding list_service_containers
  list-IsQuiet project service = search emits_rules

  pub verdict-IsQuiet :
      (h : Option Bytes) (id : Bytes) (again : Io W (Unit {0}))
      → Emits IsQuiet again
      → Emits IsQuiet (verdict cli host h id again)
  unfolding verdict
  verdict-IsQuiet none id again k = search emits_rules
  verdict-IsQuiet (some s) id again k = search (emits_rules, pause-IsQuiet) depth 10

  pub inspection-IsQuiet : (r : Result Err Inspect) → Emits IsQuiet (inspection cli host r)
  unfolding inspection
  inspection-IsQuiet (ok i) = search emits_rules
  inspection-IsQuiet (err e) = search emits_rules

  pub progress-IsQuiet : (b : Bool) (id : Bytes) → Emits IsQuiet (progress cli host b id)
  unfolding progress
  progress-IsQuiet b id = search emits_rules

  pub health_round-IsQuiet :
      (due : Bool) (id : Bytes) (again : Io W (Unit {0}))
      → Emits IsQuiet again
      → Emits IsQuiet (health_round cli host due id again)
  unfolding health_round
  health_round-IsQuiet due id again k = Emits-then _ _ (progress-IsQuiet due id) λ _.
      Emits-then _ _ (Emits-attempt _ (inspect-IsQuiet id)) λ answer.
        Emits-then _ _ (inspection-IsQuiet answer)
          λ detail. verdict-IsQuiet detail.health id again k

  pub health_loop-IsQuiet :
      (fuel : ℕ) (id : Bytes) (timeout : ℤ) (start last : ℕ)
      → Emits IsQuiet (health_loop cli host fuel id timeout start last)
  unfolding health_loop
  health_loop-IsQuiet zero id timeout start last = search emits_rules
  health_loop-IsQuiet (suc fuel) id timeout start last = Emits-then _ _ now-IsQuiet λ time.
      Emits-if (past_deadline (health_duration timeout) start time) _ _ (λ _. Emits-fail _)
        λ _.
          health_round-IsQuiet (leb (last + 10000) time) id _
            (health_loop-IsQuiet fuel id timeout start _)

  pub wait_healthy-IsQuiet :
      (id : Bytes) (timeout : ℤ) → Emits IsQuiet (wait_healthy cli host id timeout)
  unfolding wait_healthy
  wait_healthy-IsQuiet id timeout = search (emits_rules, now-IsQuiet, health_loop-IsQuiet)

  pub find_new-IsQuiet :
      (project service : Bytes) (old : List Bytes)
      → Emits IsQuiet (find_new_containers cli host project service old)
  unfolding find_new_containers
  find_new-IsQuiet project service old = search (emits_rules, list-IsQuiet)

  pub poll_again-IsQuiet :
      (n found : ℕ) (project service : Bytes) (old : List Bytes) (expected : ℕ)
      → Emits IsQuiet (poll_again cli host n found project service old expected)
  unfolding poll_again
  poll_again-IsQuiet zero found project service old expected = Emits-fail _
  poll_again-IsQuiet (suc n) found project service old expected =
      Emits-then _ _ (pause-IsQuiet 500) λ _.
        Emits-then _ _ (find_new-IsQuiet project service old) λ new.
          Emits-if (leb expected (length new)) _ _ (λ _. Emits-pure _)
            (λ _. poll_again-IsQuiet n (length new) project service old expected)

  pub poll_new-IsQuiet :
      (project service : Bytes) (old : List Bytes) (expected : ℕ)
      → Emits IsQuiet (poll_new_containers cli host project service old expected)
  unfolding poll_new_containers
  poll_new-IsQuiet project service old expected =
      search (emits_rules, find_new-IsQuiet, poll_again-IsQuiet)

  pub log_output-IsQuiet : (ls : List Bytes) → Emits IsQuiet (log_output cli host ls)
  unfolding log_output
  log_output-IsQuiet [] = search emits_rules
  log_output-IsQuiet (l ∷ ls) =
      Emits-then _ _
        (Emits-if (beq (trim_space l) []) _ _ (λ _. Emits-pure _) (λ _. Emits-log _ tt))
        λ _. log_output-IsQuiet ls

  pub or_output-IsQuiet : (o : Option Bytes) → Emits IsQuiet (or_output cli host o)
  unfolding or_output
  or_output-IsQuiet none = search emits_rules
  or_output-IsQuiet (some o) = search (emits_rules, log_output-IsQuiet)

  pub compose_up-IsQuiet :
      (path env service : Bytes) (scale : ℕ)
      → Emits IsQuiet (compose_up cli host path env service scale)
  unfolding compose_up
  compose_up-IsQuiet path env service scale =
      Emits-then _ _ (record { at = λ w. (tt, tt) }) λ o. or_output-IsQuiet o

  pub log_error-IsQuiet :
      (f : Err → Line) (r : Result Err (Unit {0})) → Emits IsQuiet (log_error cli host f r)
  unfolding log_error
  log_error-IsQuiet f (ok _) = search emits_rules
  log_error-IsQuiet f (err e) = search emits_rules

  pub remove_env-IsQuiet : (name : Bytes) → Emits IsQuiet (remove_env cli host name)
  unfolding remove_env
  remove_env-IsQuiet name = Emits-then _ _ (record { at = λ w. (tt, tt) }) λ r. search emits_rules

  pub prepared-IsQuiet : (r : Result Err Bytes) → Emits IsQuiet (prepared cli host r)
  unfolding prepared
  prepared-IsQuiet (ok name) = search emits_rules
  prepared-IsQuiet (err e) = search emits_rules

  pub write_temp_env-IsQuiet :
      (dot_env tag : Bytes) → Emits IsQuiet (write_temp_env host dot_env tag)
  unfolding write_temp_env
  write_temp_env-IsQuiet dot_env tag = record { at = λ w. ground arith }
