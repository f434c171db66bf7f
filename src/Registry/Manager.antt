-- ===== src/Registry/Manager.antt =====
-- The supervision of the registry's process: `startProcess`, `watch` and `IsRunning` of
-- internal/registry/manager.go. A step is one critical section of the mutex, one `select`, or what
-- the operating system does to a process.
pub mod Invariant
pub mod Restarts
pub mod Cancelled
pub mod Tests
use rollhook.Prelude.{
  ℕ, zero, suc, Bool, true, false, Option, none, some, List, [], ◌∷◌, ◌++◌, ltb, length,
  if◌then◌else◌, ◌≡◌,
}

-- A process and the goroutine that waits for it: `alive`, then it has exited, then the goroutine
-- has cleared `m.cmd`, then it has closed `done`.
pub data Phase : Type 0 where
  alive exited cleared closed : Phase

-- The loop of `watch`, with its count of crashes: at the first `select`, at the second, at the
-- third, at the start of a process; or it has returned, giving up or not.
pub data Watcher : Type 0 where
  watching woken backing_off starting : ℕ → Watcher
  gave_up returned : Watcher

-- `restartBackoffs`, in milliseconds.
abbrev pub restart_backoffs : List ℕ
restart_backoffs = 1000 ∷ 5000 ∷ 30000 ∷ []

-- `restartBackoffs[i]`; `none` is the panic of an index out of range.
pub backoff_at : ℕ → List ℕ → Option ℕ
backoff_at i [] = none
backoff_at zero (b ∷ bs) = some b
backoff_at (suc i) (b ∷ bs) = backoff_at i bs

-- The processes, the newest first, whose `done` is `m.done`; whether `m.cmd` is not nil; and
-- whether the context is cancelled.
pub record Manager : Type 0 where
  pub processes : List Phase
  pub has_command : Bool
  pub watcher : Watcher
  pub is_cancelled : Bool

-- What is seen from outside. A backoff is the pause before an attempt to start.
pub data Event : Type 0 where
  started start_failed : Event
  paused : Option ℕ → Event
  exit_seen other : Event

-- `IsRunning`
pub is_running : Manager → Bool
is_running m = m.has_command

-- `startProcess` when it succeeds.
pub launch : Manager → Manager
launch m = record m { processes = alive ∷ m.processes; has_command = true }

-- `Start` when it succeeds: the first process, and the loop.
pub after_start : Manager
unfolding launch
after_start =
    launch
      (record { processes = []; has_command = false; watcher = watching 0; is_cancelled = false })

-- The second `select` with n crashes before, and the count behind it.
pub on_exit : ℕ → Bool → Watcher
on_exit n true = returned
on_exit n false = if ltb (length restart_backoffs) (suc n) then gave_up else backing_off (suc n)

-- One process, whichever it is, goes on; `m.cmd` is cleared whatever process it holds by then.
pub data Moves : List Phase → Bool → List Phase → Bool → Type 0 where
  exits : (new old : List Phase) (c : Bool) → Moves (new ++ alive ∷ old) c (new ++ exited ∷ old) c
  clears :
      (new old : List Phase) (c : Bool) → Moves (new ++ exited ∷ old) c (new ++ cleared ∷ old) false
  closes :
      (new old : List Phase) (c : Bool) → Moves (new ++ cleared ∷ old) c (new ++ closed ∷ old) c

-- Is the `done` of the newest process closed?
pub is_done : List Phase → Bool
is_done (closed ∷ _) = true
is_done _ = false

pub data Step (m : Manager) : Event → Manager → Type 0 where
  process :
      {ps : List Phase} {c : Bool}
      → Moves m.processes m.has_command ps c
      → Step m other (record m { processes = ps; has_command = c })
  cancel : Step m other (record m { is_cancelled = true })
  sees_exit :
      (n : ℕ)
      → m.watcher ≡ watching n
      → is_done m.processes ≡ true
      → Step m exit_seen (record m { watcher = woken n })
  sees_cancel :
      (n : ℕ)
      → m.watcher ≡ watching n
      → m.is_cancelled ≡ true
      → Step m other (record m { watcher = returned })
  counts :
      (n : ℕ) → m.watcher ≡ woken n → Step m other (record m { watcher = on_exit n m.is_cancelled })
  pauses :
      (n : ℕ)
      → m.watcher ≡ backing_off (suc n)
      → Step m (paused (backoff_at n restart_backoffs)) (record m { watcher = starting (suc n) })
  stops_pausing :
      (n : ℕ)
      → m.watcher ≡ backing_off n
      → m.is_cancelled ≡ true
      → Step m other (record m { watcher = returned })
  starts :
      (n : ℕ) → m.watcher ≡ starting n → Step m started (record (launch m) { watcher = watching 0 })
  fails : (n : ℕ) → m.watcher ≡ starting n → Step m start_failed (record m { watcher = watching n })

-- The runs from `Start` on, with what happened in them.
pub data Run : List Event → Manager → Type 0 where
  start : Run [] after_start
  later :
      {es : List Event} {e : Event} {m m' : Manager}
      → Run es m
      → Step m e m'
      → Run (es ++ e ∷ []) m'
