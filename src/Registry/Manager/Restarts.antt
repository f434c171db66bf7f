-- ===== src/Registry/Manager/Restarts.antt =====
-- When the loop of `watch` starts a process again, and when it gives up.
use rollhook.Prelude.{
  ℕ, zero, suc, ◌+◌, ◌≤◌, Bool, true, false, Option, some, List, [], ◌∷◌, ◌++◌, ltb, ◌≡◌, refl, sym,
  ap, ◌∙◌, subst, Bool-cases, inl, inr, arith,
}
use rollhook.Registry.Manager.{
  Phase, alive, closed, Watcher, watching, woken, backing_off, starting, gave_up, returned, Manager,
  Event, started, start_failed, paused, exit_seen, other, restart_backoffs, backoff_at, launch,
  after_start, on_exit, exits, clears, closes, is_done, Step, process, cancel, sees_exit,
  sees_cancel, counts, pauses, stops_pausing, starts, fails, Run, start, later,
}
use rollhook.Registry.Manager.Invariant.{IsCounted, IsSupervised, Run-IsSupervised}

-- The failed attempts to start since the last that succeeded.
abbrev pub next_failures : ℕ → Event → ℕ
next_failures k started = 0
next_failures k start_failed = suc k
next_failures k (paused b) = k
next_failures k exit_seen = k
next_failures k other = k

abbrev pub failures : ℕ → List Event → ℕ
failures k [] = k
failures k (e ∷ es) = failures (next_failures k e) es

failures-snoc :
    (k : ℕ) (es : List Event) (e : Event)
    → failures k (es ++ e ∷ []) ≡ next_failures (failures k es) e
failures-snoc k [] e = refl
failures-snoc k (x ∷ es) e = failures-snoc (next_failures k x) es e

-- The loop's count is that of the failed attempts, one more once it has seen the exit.
abbrev Agrees : Watcher → ℕ → Type 0
Agrees (watching n) k = n ≡ k
Agrees (woken n) k = n ≡ k
Agrees (backing_off n) k = n ≡ suc k
Agrees (starting n) k = n ≡ suc k
Agrees gave_up k = k ≡ 3
Agrees returned k = Unit

Agrees-subst : {w v : Watcher} (k : ℕ) → w ≡ v → Agrees w k → Agrees v k
Agrees-subst k e h = subst (λ x. Agrees x k) e h

on_exit-Agrees : (n k : ℕ) (b : Bool) → n ≤ 3 → n ≡ k → Agrees (on_exit n b) k
unfolding on_exit
on_exit-Agrees n k true le e = tt
on_exit-Agrees n k false le e = elim (Bool-cases (ltb 3 (suc n))) [
  | inl b ↦ rw b (ground (arith, b))
  | inr b ↦ rw b (omega arith)
]

woken_bound : (m : Manager) (n : ℕ) → IsSupervised m → m.watcher ≡ woken n → n ≤ 3
woken_bound m n s e = (subst (λ w. IsCounted w m.processes) e s.counted).0

Step-Agrees :
    {m m' : Manager} {e : Event} (k : ℕ)
    → Step m e m'
    → IsSupervised m
    → Agrees m.watcher k
    → Agrees m'.watcher (next_failures k e)
unfolding launch
Step-Agrees k (process move) s a = a
Step-Agrees k cancel s a = a
Step-Agrees k (sees_exit n e d) s a = Agrees-subst k e a
Step-Agrees k (sees_cancel n e c) s a = tt
Step-Agrees {m = m} k (counts n e) s a =
    on_exit-Agrees n k m.is_cancelled (woken_bound m n s e) (Agrees-subst k e a)
Step-Agrees k (pauses n e) s a = Agrees-subst {v = backing_off (suc n)} k e a
Step-Agrees k (stops_pausing n e c) s a = tt
Step-Agrees k (starts n e) s a = refl
Step-Agrees k (fails n e) s a = Agrees-subst {v = starting n} k e a

Run-Agrees : (es : List Event) (m : Manager) → Run es m → Agrees m.watcher (failures 0 es)
unfolding after_start launch
Run-Agrees es m start = refl
Run-Agrees es m (later {es = fs} {e = e} {m = p} r s) =
    subst (Agrees m.watcher) (sym (failures-snoc 0 fs e))
      (Step-Agrees (failures 0 fs) s (Run-IsSupervised fs p r) (Run-Agrees fs p r))

-- In every run the loop has given up only when exactly three attempts to start have failed since
-- the last that succeeded, however often the process has crashed.
pub gave_up-failures :
    (es : List Event) (m : Manager) → Run es m → m.watcher ≡ gave_up → failures 0 es ≡ 3
gave_up-failures es m r e = Agrees-subst (failures 0 es) e (Run-Agrees es m r)

Pauses : Event → ℕ → Type 0
Pauses (paused b) k = (b ≡ backoff_at k restart_backoffs) × (k ≤ 2)
Pauses started k = Unit
Pauses start_failed k = Unit
Pauses exit_seen k = Unit
Pauses other k = Unit

pause_of :
    {m m' : Manager} {e : Event} (k : ℕ)
    → Step m e m'
    → IsSupervised m
    → Agrees m.watcher k
    → Pauses e k
unfolding Pauses
pause_of k (process move) s a = tt
pause_of k cancel s a = tt
pause_of k (sees_exit n e d) s a = tt
pause_of k (sees_cancel n e c) s a = tt
pause_of k (counts n e) s a = tt
pause_of {m = m} k (pauses n e) s a =
    let h = Agrees-subst {v = backing_off (suc n)} k e a in
    let b = subst (λ w. IsCounted w m.processes) e s.counted in
    (ap (λ i. backoff_at i restart_backoffs) (omega arith), omega arith)
pause_of k (stops_pausing n e c) s a = tt
pause_of k (starts n e) s a = tt
pause_of k (fails n e) s a = tt

-- In every run each pause before an attempt to start is the backoff whose index is the number of
-- attempts that failed since the last that succeeded, and that index is in range.
pub pause-backoff :
    (es : List Event) (m m' : Manager) (b : Option ℕ)
    → Run es m
    → Step m (paused b) m'
    → (b ≡ backoff_at (failures 0 es) restart_backoffs) × (failures 0 es ≤ 2)
unfolding Pauses
pause-backoff es m m' b r s =
    pause_of (failures 0 es) s (Run-IsSupervised es m r) (Run-Agrees es m r)

-- The starts that `watch` made.
abbrev pub restarts : List Event → ℕ
restarts [] = 0
restarts (started ∷ es) = suc (restarts es)
restarts (start_failed ∷ es) = restarts es
restarts (paused b ∷ es) = restarts es
restarts (exit_seen ∷ es) = restarts es
restarts (other ∷ es) = restarts es

restarts-snoc :
    (es : List Event) (e : Event) → restarts (es ++ e ∷ []) ≡ restarts es + restarts (e ∷ [])
restarts-snoc [] e = omega arith
restarts-snoc (started ∷ es) e = let ih = restarts-snoc es e in omega arith
restarts-snoc (start_failed ∷ es) e = restarts-snoc es e
restarts-snoc (paused b ∷ es) e = restarts-snoc es e
restarts-snoc (exit_seen ∷ es) e = restarts-snoc es e
restarts-snoc (other ∷ es) e = restarts-snoc es e

-- The state after n crashes, each followed by a start that succeeded.
abbrev pub old_processes : ℕ → List Phase
old_processes zero = []
old_processes (suc n) = closed ∷ old_processes n

abbrev pub restarted : ℕ → Manager
restarted n = record {
  processes = alive ∷ old_processes n;
  has_command = true;
  watcher = watching 0;
  is_cancelled = false;
}

abbrev pub after_crash : List Event → List Event
after_crash es =
    ((((((es ++ other ∷ []) ++ other ∷ []) ++ other ∷ []) ++ exit_seen ∷ []) ++ other ∷ [])
      ++ paused (some 1000) ∷ [])
    ++ started ∷ []

abbrev pub crash_loop : ℕ → List Event
crash_loop zero = []
crash_loop (suc n) = after_crash (crash_loop n)

crash_once :
    (n : ℕ) (es : List Event) → Run es (restarted n) → Run (after_crash es) (restarted (suc n))
unfolding launch is_done on_exit backoff_at
crash_once n es r =
    later
      (later
        (later
          (later
            (later
              (later (later r (process (exits [] (old_processes n) true)))
                (process (clears [] (old_processes n) true)))
              (process (closes [] (old_processes n) false)))
            (sees_exit 0 refl refl))
          (counts 0 refl))
        (pauses 0 refl))
      (starts 1 refl)

restarts-after_crash : (es : List Event) → restarts (after_crash es) ≡ suc (restarts es)
restarts-after_crash es =
    let e1 = restarts-snoc es other in
    let e2 = restarts-snoc (es ++ other ∷ []) other in
    let e3 = restarts-snoc ((es ++ other ∷ []) ++ other ∷ []) other in
    let seen = ((es ++ other ∷ []) ++ other ∷ []) ++ other ∷ [] in
    let e4 = restarts-snoc seen exit_seen in
    let e5 = restarts-snoc (seen ++ exit_seen ∷ []) other in
    let e6 = restarts-snoc ((seen ++ exit_seen ∷ []) ++ other ∷ []) (paused (some 1000)) in
    let e7 =
      restarts-snoc (((seen ++ exit_seen ∷ []) ++ other ∷ []) ++ paused (some 1000) ∷ []) started in
    omega arith

restarts-crash_loop : (n : ℕ) → restarts (crash_loop n) ≡ n
restarts-crash_loop zero = refl
restarts-crash_loop (suc n) = restarts-after_crash (crash_loop n) ∙ ap suc (restarts-crash_loop n)

crash_loop-Run : (n : ℕ) → Run (crash_loop n) (restarted n)
unfolding after_start launch
crash_loop-Run zero = start
crash_loop-Run (suc n) = crash_once n (crash_loop n) (crash_loop-Run n)

-- For every n there is a run of n crashes in which the process is started again n times, each time
-- after the first backoff of one second.
pub crash_loop_lem : (n : ℕ) → Run (crash_loop n) (restarted n) × (restarts (crash_loop n) ≡ n)
crash_loop_lem n = (crash_loop-Run n, restarts-crash_loop n)
