-- ===== src/Registry/Manager/Invariant.antt =====
-- What holds in every state of the supervision.
use rollhook.Prelude.{
  ℕ, suc, ◌≤◌, Bool, true, false, List, [], ◌∷◌, ◌++◌, ltb, ◌≡◌, refl, subst, All, Bool-cases, inl,
  inr, arith,
}
use rollhook.Registry.Manager.{
  Phase, alive, exited, cleared, closed, Watcher, watching, woken, backing_off, starting, gave_up,
  returned, Manager, Event, launch, after_start, on_exit, Moves, exits, clears, closes, is_done,
  Step, process, cancel, sees_exit, sees_cancel, counts, pauses, stops_pausing, starts, fails, Run,
  start, later,
}

-- The goroutine that waits for the process has not cleared `m.cmd` yet.
abbrev pub holds : Phase → Bool
holds alive = true
holds exited = true
holds cleared = false
holds closed = false

-- `m.cmd` is the newest process's, and the goroutines of all older ones are done.
abbrev pub IsTidy : List Phase → Bool → Type 0
IsTidy [] c = ⊥
IsTidy (p ∷ ps) c = (c ≡ holds p) × All (λ q. q ≡ closed) ps

-- The count of crashes is an index of the backoffs where it is used as one, and the loop is past
-- its first `select` only when the newest process is done.
abbrev pub IsCounted : Watcher → List Phase → Type 0
IsCounted (watching n) ps = n ≤ 3
IsCounted (woken n) ps = (n ≤ 3) × (is_done ps ≡ true)
IsCounted (backing_off n) ps = (1 ≤ n) × (n ≤ 3) × (is_done ps ≡ true)
IsCounted (starting n) ps = (1 ≤ n) × (n ≤ 3) × (is_done ps ≡ true)
IsCounted gave_up ps = Unit
IsCounted returned ps = Unit

pub record IsSupervised (m : Manager) : Type 0 where
  pub tidy : IsTidy m.processes m.has_command
  pub counted : IsCounted m.watcher m.processes

All-middle :
    (p : Phase) (new old : List Phase) → All (λ q. q ≡ closed) (new ++ p ∷ old) → p ≡ closed
All-middle p [] old h = h.0
All-middle p (x ∷ new) old h = All-middle p new old h.1

Moves-IsTidy : {ps ps' : List Phase} {c c' : Bool} → Moves ps c ps' c' → IsTidy ps c → IsTidy ps' c'
Moves-IsTidy (exits [] old c) (h, a) = (h, a)
Moves-IsTidy (exits (x ∷ new) old c) (h, a) = absurd (ground (arith, All-middle alive new old a))
Moves-IsTidy (clears [] old c) (h, a) = (refl, a)
Moves-IsTidy (clears (x ∷ new) old c) (h, a) = absurd (ground (arith, All-middle exited new old a))
Moves-IsTidy (closes [] old c) (h, a) = (h, a)
Moves-IsTidy (closes (x ∷ new) old c) (h, a) = absurd (ground (arith, All-middle cleared new old a))

-- Once the newest process is done no goroutine is left that could move.
done-still :
    {ps ps' : List Phase} {c c' : Bool} → Moves ps c ps' c' → IsTidy ps c → is_done ps ≡ true → ⊥
unfolding is_done
done-still (exits [] old c) (h, a) d = ground (arith, d)
done-still (exits (x ∷ new) old c) (h, a) d = ground (arith, All-middle alive new old a)
done-still (clears [] old c) (h, a) d = ground (arith, d)
done-still (clears (x ∷ new) old c) (h, a) d = ground (arith, All-middle exited new old a)
done-still (closes [] old c) (h, a) d = ground (arith, d)
done-still (closes (x ∷ new) old c) (h, a) d = ground (arith, All-middle cleared new old a)

Moves-IsCounted :
    (w : Watcher) {ps ps' : List Phase} {c c' : Bool}
    → Moves ps c ps' c'
    → IsTidy ps c
    → IsCounted w ps
    → IsCounted w ps'
Moves-IsCounted (watching n) move tidy h = h
Moves-IsCounted (woken n) move tidy h = absurd (done-still move tidy h.1)
Moves-IsCounted (backing_off n) move tidy h = absurd (done-still move tidy h.2)
Moves-IsCounted (starting n) move tidy h = absurd (done-still move tidy h.2)
Moves-IsCounted gave_up move tidy h = tt
Moves-IsCounted returned move tidy h = tt

on_exit-IsCounted :
    (n : ℕ) (b : Bool) (ps : List Phase) → IsCounted (woken n) ps → IsCounted (on_exit n b) ps
unfolding on_exit
on_exit-IsCounted n true ps h = tt
on_exit-IsCounted n false ps (le, d) = elim (Bool-cases (ltb 3 (suc n))) [
  | inl b ↦ rw b tt
  | inr b ↦ rw b (omega arith, ground (arith, b), d)
]

-- A process is only started when the newest one is done, and `m.cmd` is nil then.
done_tidy :
    (ps : List Phase) (c : Bool) → IsTidy ps c → is_done ps ≡ true → All (λ q. q ≡ closed) ps
unfolding is_done
done_tidy [] c h d = elim h [ ]
done_tidy (alive ∷ ps) c (h, a) d = ground (arith, d)
done_tidy (exited ∷ ps) c (h, a) d = ground (arith, d)
done_tidy (cleared ∷ ps) c (h, a) d = ground (arith, d)
done_tidy (closed ∷ ps) c (h, a) d = (refl, a)

IsCounted-subst : {w v : Watcher} (ps : List Phase) → w ≡ v → IsCounted w ps → IsCounted v ps
IsCounted-subst ps e h = subst (λ x. IsCounted x ps) e h

pub Step-IsSupervised :
    {m m' : Manager} {e : Event} → Step m e m' → IsSupervised m → IsSupervised m'
unfolding launch
Step-IsSupervised {m = m} (process move) s = record {
  tidy = Moves-IsTidy move s.tidy;
  counted = Moves-IsCounted m.watcher move s.tidy s.counted;
}
Step-IsSupervised cancel s = record { tidy = s.tidy; counted = s.counted }
Step-IsSupervised {m = m} (sees_exit n e d) s = record {
  tidy = s.tidy;
  counted = (IsCounted-subst m.processes e s.counted, d);
}
Step-IsSupervised (sees_cancel n e c) s = record { tidy = s.tidy; counted = tt }
Step-IsSupervised {m = m} (counts n e) s = record {
  tidy = s.tidy;
  counted =
      on_exit-IsCounted n m.is_cancelled m.processes (IsCounted-subst m.processes e s.counted);
}
Step-IsSupervised {m = m} (pauses n e) s = record {
  tidy = s.tidy;
  counted = IsCounted-subst {v = backing_off (suc n)} m.processes e s.counted;
}
Step-IsSupervised (stops_pausing n e c) s = record { tidy = s.tidy; counted = tt }
Step-IsSupervised {m = m} (starts n e) s =
    let (_, _, d) = IsCounted-subst {v = starting n} m.processes e s.counted in
    record { tidy = (refl, done_tidy m.processes m.has_command s.tidy d); counted = omega arith }
Step-IsSupervised {m = m} (fails n e) s = record {
  tidy = s.tidy;
  counted = (IsCounted-subst {v = starting n} m.processes e s.counted).1;
}

-- In every run `m.cmd` is not nil exactly until the goroutine of the newest process has cleared it,
-- the goroutines of all older processes are done, so that none of them can clear the command of a
-- newer process, and the count of crashes is 1, 2 or 3 where it is an index of the backoffs.
pub Run-IsSupervised : (es : List Event) (m : Manager) → Run es m → IsSupervised m
unfolding after_start launch
Run-IsSupervised es m start = record { tidy = (refl, tt); counted = omega arith }
Run-IsSupervised es m (later {es = fs} {m = p} r s) = Step-IsSupervised s (Run-IsSupervised fs p r)
