-- ===== src/Registry/Manager/Tests.antt =====
-- Runs of the supervision, and the theorems at them.
use rollhook.Prelude.{ℕ, suc, ◌≤◌, true, false, List, [], ◌∷◌, ◌++◌, ◌≡◌, refl}
use rollhook.Registry.Manager.{
  alive, closed, Manager, Event, restart_backoffs, started, start_failed, paused, exit_seen, other,
  watching, backing_off, starting, gave_up, exits, clears, closes, launch, after_start, on_exit,
  is_done, backoff_at, process, sees_exit, counts, pauses, starts, fails, Run, start, later,
}
use rollhook.Registry.Manager.Invariant.{IsSupervised, Run-IsSupervised}
use rollhook.Registry.Manager.Restarts.{
  crash_loop, restarted, crash_loop_lem, failures, gave_up-failures, pause-backoff,
}
use rollhook.Registry.Manager.Cancelled.{Steps, stay, go_on, attempts, budget, Steps-attempts}

Run-IsSupervised_example : IsSupervised (restarted 2)
Run-IsSupervised_example = Run-IsSupervised (crash_loop 2) (restarted 2) (crash_loop_lem 2).0

-- The first process is done, and each attempt to start another fails.
abbrev dead : ℕ → Manager
dead n = record {
  processes = closed ∷ [];
  has_command = false;
  watcher = watching n;
  is_cancelled = false;
}

abbrev first_crash : List Event
first_crash = (([] ++ other ∷ []) ++ other ∷ []) ++ other ∷ []

crashed : Run first_crash (dead 0)
unfolding after_start launch
crashed =
    later (later (later start (process (exits [] [] true))) (process (clears [] [] true)))
      (process (closes [] [] false))

abbrev failed_attempt : ℕ → List Event → List Event
failed_attempt n es =
    (((es ++ exit_seen ∷ []) ++ other ∷ []) ++ paused (backoff_at n restart_backoffs) ∷ [])
    ++ start_failed ∷ []

attempt_fails :
    (n : ℕ) (es : List Event)
    → on_exit n false ≡ backing_off (suc n)
    → Run es (dead n)
    → Run (failed_attempt n es) (dead (suc n))
unfolding is_done
attempt_fails n es e r =
    later (later (later (later r (sees_exit n refl refl)) (counts n refl)) (pauses n e))
      (fails (suc n) refl)

abbrev three_failures : List Event
three_failures = failed_attempt 2 (failed_attempt 1 (failed_attempt 0 first_crash))

given_up :
    Run ((three_failures ++ exit_seen ∷ []) ++ other ∷ []) (record (dead 3) { watcher = gave_up })
unfolding on_exit is_done
given_up =
    later
      (later (attempt_fails 2 _ refl (attempt_fails 1 _ refl (attempt_fails 0 _ refl crashed)))
        (sees_exit 3 refl refl))
      (counts 3 refl)

gave_up-failures_example : failures 0 ((three_failures ++ exit_seen ∷ []) ++ other ∷ []) ≡ 3
gave_up-failures_example =
    gave_up-failures ((three_failures ++ exit_seen ∷ []) ++ other ∷ [])
      (record (dead 3) { watcher = gave_up }) given_up refl

abbrev counted : List Event
counted = (first_crash ++ exit_seen ∷ []) ++ other ∷ []

counted-Run : Run counted (record (dead 0) { watcher = backing_off 1 })
unfolding on_exit is_done
counted-Run = later (later crashed (sees_exit 0 refl refl)) (counts 0 refl)

pause-backoff_example :
    (backoff_at 0 restart_backoffs ≡ backoff_at (failures 0 counted) restart_backoffs)
    × (failures 0 counted ≤ 2)
pause-backoff_example =
    pause-backoff counted (record (dead 0) { watcher = backing_off 1 })
      (record (dead 0) { watcher = starting 1 }) (backoff_at 0 restart_backoffs) counted-Run
      (pauses 0 refl)

-- The context is cancelled in the last moment of a pause: one more attempt is made.
abbrev paused_manager : Manager
paused_manager = record (dead 0) { watcher = backing_off 1; is_cancelled = true }

one_attempt :
    Steps paused_manager
      (paused (backoff_at 0 restart_backoffs) ∷ started ∷ [])
      (record (dead 0) { processes = alive ∷ closed ∷ []; has_command = true; is_cancelled = true })
unfolding launch
one_attempt = go_on (pauses 0 refl) (go_on (starts 1 refl) stay)

Steps-attempts_example :
    (attempts (paused (backoff_at 0 restart_backoffs) ∷ started ∷ [])
      ≤ budget paused_manager.watcher)
    × (budget paused_manager.watcher ≤ 1)
Steps-attempts_example =
    Steps-attempts paused_manager
      (record (dead 0) { processes = alive ∷ closed ∷ []; has_command = true; is_cancelled = true })
      (paused (backoff_at 0 restart_backoffs) ∷ started ∷ []) one_attempt refl
