-- ===== src/Registry/Manager/Cancelled.antt =====
-- What the loop of `watch` does after the context is cancelled.
use rollhook.Prelude.{ℕ, suc, ◌+◌, ◌≤◌, Bool, true, false, List, [], ◌∷◌, ◌≡◌, refl, ap, arith}
use rollhook.Registry.Manager.{
  Watcher, watching, woken, backing_off, starting, gave_up, returned, Manager, Event, started,
  start_failed, paused, exit_seen, other, launch, on_exit, Step, process, cancel, sees_exit,
  sees_cancel, counts, pauses, stops_pausing, starts, fails,
}

-- Any number of steps from any state, with what happens in them.
pub data Steps : Manager → List Event → Manager → Type 0 where
  stay : {m : Manager} → Steps m [] m
  go_on :
      {m m' n : Manager} {e : Event} {es : List Event}
      → Step m e m'
      → Steps m' es n
      → Steps m (e ∷ es) n

-- The attempts to start a process, whether they succeed or not.
abbrev pub attempts : List Event → ℕ
attempts [] = 0
attempts (started ∷ es) = suc (attempts es)
attempts (start_failed ∷ es) = suc (attempts es)
attempts (paused b ∷ es) = attempts es
attempts (exit_seen ∷ es) = attempts es
attempts (other ∷ es) = attempts es

-- The attempts that the loop can still make in a cancelled context.
abbrev pub budget : Watcher → ℕ
budget (watching n) = 0
budget (woken n) = 0
budget (backing_off n) = 1
budget (starting n) = 1
budget gave_up = 0
budget returned = 0

Step-is_cancelled :
    {m m' : Manager} {e : Event} → Step m e m' → m.is_cancelled ≡ true → m'.is_cancelled ≡ true
unfolding launch
Step-is_cancelled (process move) c = c
Step-is_cancelled cancel c = refl
Step-is_cancelled (sees_exit n e d) c = c
Step-is_cancelled (sees_cancel n e d) c = c
Step-is_cancelled (counts n e) c = c
Step-is_cancelled (pauses n e) c = c
Step-is_cancelled (stops_pausing n e d) c = c
Step-is_cancelled (starts n e) c = c
Step-is_cancelled (fails n e) c = c

on_exit-budget : (n : ℕ) (b : Bool) → b ≡ true → budget (on_exit n b) ≡ 0
unfolding on_exit
on_exit-budget n true e = refl
on_exit-budget n false e = ground (arith, e)

Step-budget :
    {m m' : Manager} {e : Event}
    → Step m e m'
    → m.is_cancelled ≡ true
    → attempts (e ∷ []) + budget m'.watcher ≤ budget m.watcher
unfolding launch
Step-budget (process move) c = omega arith
Step-budget cancel c = omega arith
Step-budget (sees_exit n e d) c = omega arith
Step-budget (sees_cancel n e d) c = omega arith
Step-budget {m = m} (counts n e) c = let h = on_exit-budget n m.is_cancelled c in omega arith
Step-budget (pauses n e) c = let h = ap budget e in omega arith
Step-budget (stops_pausing n e d) c = omega arith
Step-budget (starts n e) c = let h = ap budget e in omega arith
Step-budget (fails n e) c = let h = ap budget e in omega arith

attempts-∷ : (e : Event) (es : List Event) → attempts (e ∷ es) ≡ attempts (e ∷ []) + attempts es
attempts-∷ started es = omega arith
attempts-∷ start_failed es = omega arith
attempts-∷ (paused b) es = omega arith
attempts-∷ exit_seen es = omega arith
attempts-∷ other es = omega arith

Steps-budget :
    {m n : Manager} {es : List Event}
    → Steps m es n
    → m.is_cancelled ≡ true
    → attempts es ≤ budget m.watcher
Steps-budget stay c = omega arith
Steps-budget (go_on {e = e} {es = es} s rest) c =
    let ih = Steps-budget rest (Step-is_cancelled s c) in
    let h = Step-budget s c in let split = attempts-∷ e es in omega arith

budget-bound : (w : Watcher) → budget w ≤ 1
budget-bound (watching n) = omega arith
budget-bound (woken n) = omega arith
budget-bound (backing_off n) = omega arith
budget-bound (starting n) = omega arith
budget-bound gave_up = omega arith
budget-bound returned = omega arith

-- After the context is cancelled, whatever the processes and the loop do and in whatever order, the
-- loop makes at most one more attempt to start a process, and that only if it was already
-- past the check behind the exit: none when it waits for an exit or has returned.
pub Steps-attempts :
    (m n : Manager) (es : List Event)
    → Steps m es n
    → m.is_cancelled ≡ true
    → (attempts es ≤ budget m.watcher) × (budget m.watcher ≤ 1)
Steps-attempts m n es steps c = (Steps-budget steps c, budget-bound m.watcher)
