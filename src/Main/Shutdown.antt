-- ===== src/Main/Shutdown.antt =====
-- cmd/rollhook/main.go: the goroutine of the shutdown, beside `main`, which waits in
-- `ListenAndServe`, and the requests in flight. A step is what one of them does next; `Drain` and
-- the exit of the registry are in their own parts.
pub mod Ordered
pub mod Tests
use rollhook.Prelude.{ℕ, zero, suc, Bool, true, false, not, Option, none, some, if◌then◌else◌, ◌≡◌}

-- The goroutine: before the signal; in its pause; in `Drain`; before `cancelJobs`, `mgr.Stop` and
-- `srv.Shutdown`; in that call.
pub data Phase : Type 0 where
  waiting pausing draining cancelling stopping closing closed : Phase

-- `shuttingDown` of internal/state/state.go, the answer of `Drain`, whether `jobCtx` is cancelled,
-- whether `mgr.Stop` has returned, whether the listener is open, the requests in flight, and
-- whether `main` has returned. `ListenAndServe` does not fail by itself. The registry's process may
-- exit by itself before `mgr.Stop`.
pub record Server : Type 0 where
  pub phase : Phase
  pub shutting_down : Bool
  pub drained : Option Bool
  pub jobs_cancelled : Bool
  pub registry_stopped : Bool
  pub listening : Bool
  pub in_flight : ℕ
  pub returned : Bool

pub serving : Server
serving = record {
  phase = waiting;
  shutting_down = false;
  drained = none;
  jobs_cancelled = false;
  registry_stopped = false;
  listening = true;
  in_flight = 0;
  returned = false;
}

-- `if !exec.Queue().Drain(…) { cancelJobs() }`
pub after_drain : Bool → Phase
after_drain answer = if answer then stopping else cancelling

pub data Step (s : Server) : Server → Type 0 where
  signalled : s.phase ≡ waiting → Step s (record s { phase = pausing; shutting_down = true })
  paused : s.phase ≡ pausing → Step s (record s { phase = draining })
  drain_answers :
      (answer : Bool)
      → s.phase ≡ draining
      → Step s (record s { phase = after_drain answer; drained = some answer })
  cancels : s.phase ≡ cancelling → Step s (record s { phase = stopping; jobs_cancelled = true })
  stops_registry :
      s.phase ≡ stopping → Step s (record s { phase = closing; registry_stopped = true })
  -- `ListenAndServe` returns at once when this call begins.
  calls_shutdown : s.phase ≡ closing → Step s (record s { phase = closed; listening = false })
  -- With `defer cancelJobs()`.
  main_returns : s.listening ≡ false → Step s (record s { returned = true; jobs_cancelled = true })
  begins :
      s.listening ≡ true → s.returned ≡ false → Step s (record s { in_flight = suc s.in_flight })
  ends : (n : ℕ) → s.in_flight ≡ suc n → s.returned ≡ false → Step s (record s { in_flight = n })

pub data Run : Server → Type 0 where
  start : Run serving
  later : {s s' : Server} → Run s → Step s s' → Run s'
