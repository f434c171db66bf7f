-- ===== src/Rollout/Tests.antt =====
-- Runs of a rollout on the small machine, and the theorems at them.
use rollhook.Prelude.{int64, true, [], ◌∷◌, ok, err, ◌≡◌, ◌≢◌, refl, All, arith, pos, some}
use rollhook.Text.{codes, beq, split, trim_left, trim_right, trim_space}
use rollhook.Effect.{
  compose_up_failed, out_of_fuel, health_timeout, background, ◌>>=◌, deferring, attempt, call, fail,
  log, pure,
}
use rollhook.Effect.Phases.{TwoPhases}
use rollhook.Docker.{list_service_containers, inspect_container, stop_container, remove_container}
use rollhook.Image.{short_id}
use rollhook.EnvFile.{write_temp_env}
use rollhook.Text.Number.{parse_int}
use rollhook.Host.{Host, now, pause, env_int}
use rollhook.Rollout.{
  rollout, replace, prepared, bring_up, scale_target, distinct, member, health_timeout_ms,
  drain_old, compose_up, drain_all, find_new_containers, health_loop, health_round, inspection,
  log_error, log_output, or_output, or_roll_back, past_deadline, health_duration, poll_again,
  progress, remove_env, rollback_each, verdict, wait_all, poll_new_containers, rollback_containers,
  wait_healthy,
}
use rollhook.Rollout.Health.{ClockLaws, wait_healthy-terminates, wait_healthy-overflow}
use rollhook.Rollout.Rollback.{Retires, rollback_containers-Retires}
use rollhook.Rollout.Outcome.{Spares, rollout_failure-Spares}
use rollhook.Rollout.Success.{Done, rollout-zero_downtime}
use rollhook.Fixtures.{World, docker, host, before, old_container, new_container}

-- A Compose command that fails.
abbrev broken : Host World
broken = record host { compose_up = λ dir file env service scale w. (some (codes "boom"), w) }

listed :
    (list_service_containers docker (codes "demo") (codes "app") before).0 ≡ ok (old_container ∷ [])
unfolding list_service_containers call
listed = refl

succeeds :
    (rollout docker host
      (codes "/srv/compose.yml")
      (codes "app")
      (codes "demo")
      (codes "r.io/app:v2")
      before).0
    ≡ ok tt
unfolding rollout replace prepared bring_up scale_target distinct member health_timeout_ms drain_old
    compose_up drain_all find_new_containers health_loop health_round inspection log_error
    log_output or_output or_roll_back past_deadline health_duration int64 poll_again progress
    remove_env rollback_each verdict wait_all poll_new_containers rollback_containers wait_healthy
    ◌>>=◌ list_service_containers inspect_container remove_container stop_container write_temp_env
    deferring attempt call fail log pure now pause env_int parse_int beq split trim_left trim_right
    trim_space
succeeds = refl

rollout-zero_downtime_example :
    TwoPhases
      (Spares (old_container ∷ []))
      (Done docker host (codes "demo") (codes "app") (old_container ∷ []))
      (rollout docker host
        (codes "/srv/compose.yml")
        (codes "app")
        (codes "demo")
        (codes "r.io/app:v2")
        before).1
rollout-zero_downtime_example =
    rollout-zero_downtime docker host (codes "/srv/compose.yml") (codes "app") (codes "demo")
      (codes "r.io/app:v2") before (old_container ∷ []) (λ id ids h. h) listed succeeds

fails :
    (rollout docker broken
      (codes "/srv/compose.yml")
      (codes "app")
      (codes "demo")
      (codes "r.io/app:v2")
      before).0
    ≡ err compose_up_failed
unfolding rollout replace prepared bring_up scale_target distinct member health_timeout_ms drain_old
    compose_up drain_all find_new_containers health_loop health_round inspection log_error
    log_output or_output or_roll_back past_deadline health_duration int64 poll_again progress
    remove_env rollback_each verdict wait_all poll_new_containers rollback_containers wait_healthy
    ◌>>=◌ list_service_containers inspect_container remove_container stop_container write_temp_env
    deferring attempt call fail log pure now pause env_int parse_int beq split trim_left trim_right
    trim_space
fails = refl

rollout_failure-Spares_example :
    All
      (Spares (old_container ∷ []))
      (rollout docker broken
        (codes "/srv/compose.yml")
        (codes "app")
        (codes "demo")
        (codes "r.io/app:v2")
        before).1
rollout_failure-Spares_example =
    rollout_failure-Spares docker broken (codes "/srv/compose.yml") (codes "app") (codes "demo")
      (codes "r.io/app:v2") before (old_container ∷ []) compose_up_failed listed fails

laws : ClockLaws docker host
laws = record { inspect_keeps = λ id w. omega arith; sleep_takes = λ ms w h. omega arith }

wait_healthy-terminates_example :
    (wait_healthy docker host (codes "new") (pos 3000) before).0 ≢ err out_of_fuel
wait_healthy-terminates_example =
    wait_healthy-terminates docker host (codes "new") (pos 3000) before laws

wait_healthy-overflow_example :
    ((wait_healthy docker host (codes "new") (pos 9223372036855) before).0
      ≡ err (health_timeout (short_id (codes "new")) (pos 9223372036855)))
    × ((wait_healthy docker host (codes "new") (pos 9223372036855) before).1 ≡ [])
wait_healthy-overflow_example =
    wait_healthy-overflow docker host (codes "new") 9223372036855 before (omega arith) (omega arith)

is_healthy : (wait_healthy docker host (codes "new") (pos 3000) before).0 ≡ ok tt
unfolding rollout replace prepared bring_up scale_target distinct member health_timeout_ms drain_old
    compose_up drain_all find_new_containers health_loop health_round inspection log_error
    log_output or_output or_roll_back past_deadline health_duration int64 poll_again progress
    remove_env rollback_each verdict wait_all poll_new_containers rollback_containers wait_healthy
    ◌>>=◌ list_service_containers inspect_container remove_container stop_container write_temp_env
    deferring attempt call fail log pure now pause env_int parse_int beq split trim_left trim_right
    trim_space
is_healthy = refl

rollback_containers-Retires_example :
    All
      (Retires background
        (rollback_containers docker host (codes "a" ∷ codes "b" ∷ []) compose_up_failed before).1)
      (codes "a" ∷ codes "b" ∷ [])
rollback_containers-Retires_example =
    rollback_containers-Retires docker host (codes "a" ∷ codes "b" ∷ []) compose_up_failed before

polled :
    (poll_new_containers docker host (codes "demo") (codes "app") (codes "old" ∷ []) 1 (true, 0)).0
    ≡ ok (new_container ∷ [])
unfolding rollout replace prepared bring_up scale_target distinct member health_timeout_ms drain_old
    compose_up drain_all find_new_containers health_loop health_round inspection log_error
    log_output or_output or_roll_back past_deadline health_duration int64 poll_again progress
    remove_env rollback_each verdict wait_all poll_new_containers rollback_containers wait_healthy
    ◌>>=◌ list_service_containers inspect_container remove_container stop_container write_temp_env
    deferring attempt call fail log pure now pause env_int parse_int beq split trim_left trim_right
    trim_space
polled = refl
