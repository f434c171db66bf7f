-- ===== src/Main/Shutdown/Ordered.antt =====
-- The order of the shutdown, and what it does not wait for.
use rollhook.Prelude.{
  ℕ, zero, suc, Bool, true, false, not, ◌||◌, Option, none, some, ◌≡◌, refl, sym, ap, subst, ◌∙◌,
}
use rollhook.Main.Shutdown.{
  Phase, waiting, pausing, draining, cancelling, stopping, closing, closed, Server, serving,
  after_drain, Step, signalled, paused, drain_answers, cancels, stops_registry, calls_shutdown,
  main_returns, begins, ends, Run, start, later,
}

-- What the phase of the goroutine says of everything that it and `main` change: `shutting_down`,
-- `drained`, `jobs_cancelled`, `registry_stopped`, `listening` and `returned`.
abbrev pub At : Phase → Bool → Option Bool → Bool → Bool → Bool → Bool → Type 0
At waiting s d c r l m =
    (s ≡ false) × (d ≡ none) × (c ≡ false) × (r ≡ false) × (l ≡ true) × (m ≡ false)
At pausing s d c r l m =
    (s ≡ true) × (d ≡ none) × (c ≡ false) × (r ≡ false) × (l ≡ true) × (m ≡ false)
At draining s d c r l m =
    (s ≡ true) × (d ≡ none) × (c ≡ false) × (r ≡ false) × (l ≡ true) × (m ≡ false)
At cancelling s d c r l m =
    (s ≡ true) × (d ≡ some false) × (c ≡ false) × (r ≡ false) × (l ≡ true) × (m ≡ false)
At stopping s d c r l m = (s ≡ true) × (d ≡ some (not c)) × (r ≡ false) × (l ≡ true) × (m ≡ false)
At closing s d c r l m = (s ≡ true) × (d ≡ some (not c)) × (r ≡ true) × (l ≡ true) × (m ≡ false)
At closed s d c r l m =
    (s ≡ true)
    × (answer : Bool) × (d ≡ some answer)
    × (c ≡ (not answer || m))
    × (r ≡ true)
    × (l ≡ false)

abbrev pub IsOrdered : Server → Type 0
IsOrdered s =
    At s.phase s.shutting_down s.drained s.jobs_cancelled s.registry_stopped s.listening s.returned

IsOrdered-phase :
    (m : Server) (q : Phase)
    → m.phase ≡ q
    → IsOrdered m
    → At q m.shutting_down m.drained m.jobs_cancelled m.registry_stopped m.listening m.returned
IsOrdered-phase m q e h =
    subst
      (λ p.
        At p m.shutting_down m.drained m.jobs_cancelled m.registry_stopped m.listening m.returned)
      e h

drained-At :
    (answer : Bool) {s c r l m : Bool} {d : Option Bool}
    → At draining s d c r l m
    → At (after_drain answer) s (some answer) c r l m
unfolding after_drain
drained-At true (s, d, c, r, l, m) = (s, ap (λ x. some (not x)) (sym c), r, l, m)
drained-At false (s, d, c, r, l, m) = (s, refl, c, r, l, m)

closed-At :
    {s c r l m : Bool} {d : Option Bool} → At closing s d c r l m → At closed s d c r false m
closed-At {c = c} {m = m} (s, d, r, l, here) = (
  s,
  not c,
  d,
  not_not c ∙ sym (ap (λ x. not (not c) || x) here ∙ or_false (not (not c))),
  r,
  refl,
)
  where
    not_not : (b : Bool) → b ≡ not (not b)
    not_not true = refl
    not_not false = refl

    or_false : (b : Bool) → (b || false) ≡ b
    or_false true = refl
    or_false false = refl

-- `main` returns only behind the end of the listener.
returned-At :
    (m : Server) (p : Phase)
    → m.listening ≡ false
    → At p m.shutting_down m.drained m.jobs_cancelled m.registry_stopped m.listening m.returned
    → At p m.shutting_down m.drained true m.registry_stopped m.listening true
returned-At m waiting shut (_, _, _, _, l, _) = cc
returned-At m pausing shut (_, _, _, _, l, _) = cc
returned-At m draining shut (_, _, _, _, l, _) = cc
returned-At m cancelling shut (_, _, _, _, l, _) = cc
returned-At m stopping shut (_, _, _, l, _) = cc
returned-At m closing shut (_, _, _, l, _) = cc
returned-At m closed shut (s, answer, d, c, r, l) = (s, answer, d, or_true (not answer), r, l)
  where
    or_true : (b : Bool) → true ≡ (b || true)
    or_true true = refl
    or_true false = refl

Step-IsOrdered : {s s' : Server} → Step s s' → IsOrdered s → IsOrdered s'
Step-IsOrdered {s = m} (signalled e) h =
    let (a, d, c, r, l, n) = IsOrdered-phase m waiting e h in (refl, d, c, r, l, n)
Step-IsOrdered {s = m} (paused e) h = IsOrdered-phase m pausing e h
Step-IsOrdered {s = m} (drain_answers answer e) h =
    drained-At answer (IsOrdered-phase m draining e h)
Step-IsOrdered {s = m} (cancels e) h =
    let (a, d, c, r, l, n) = IsOrdered-phase m cancelling e h in (a, d, r, l, n)
Step-IsOrdered {s = m} (stops_registry e) h =
    let (a, d, r, l, n) = IsOrdered-phase m stopping e h in (a, d, refl, l, n)
Step-IsOrdered {s = m} (calls_shutdown e) h = closed-At (IsOrdered-phase m closing e h)
Step-IsOrdered {s = m} (main_returns e) h = returned-At m m.phase e h
Step-IsOrdered {s = m} (begins e f) h = h
Step-IsOrdered {s = m} (ends n e f) h = h

-- At every moment of a shutdown: requests are taken, and `mgr.Stop` has not returned, until `Drain`
-- has answered; the listener is closed only behind the return of `mgr.Stop`, and `main` returns
-- only behind that; the jobs' context is cancelled exactly if `Drain` answered that it timed out,
-- from behind that answer on, or `main` has returned; and health reports the shutdown from its
-- beginning on.
pub Run-IsOrdered : (s : Server) → Run s → IsOrdered s
unfolding serving
Run-IsOrdered s start = (refl, refl, refl, refl, refl, refl)
Run-IsOrdered s (later {s = p} r step) = Step-IsOrdered step (Run-IsOrdered p r)

abbrev pub busy : ℕ → Server
busy n = record {
  phase = waiting;
  shutting_down = false;
  drained = none;
  jobs_cancelled = false;
  registry_stopped = false;
  listening = true;
  in_flight = n;
  returned = false;
}

busy-Run : (n : ℕ) → Run (busy n)
unfolding serving
busy-Run zero = start
busy-Run (suc n) = later (busy-Run n) (begins refl refl)

-- Any number of requests can be in flight when `main` has returned, although `Drain` has answered
-- that all jobs are done: it does not wait for `Shutdown` to let them end.
pub Run-cut_off :
    (n : ℕ)
    → (s : Server) × Run s × (s.returned ≡ true) × (s.in_flight ≡ n) × (s.drained ≡ some true)
unfolding after_drain
Run-cut_off n = (
  _,
  later
      (later
        (later
          (later (later (later (busy-Run n) (signalled refl)) (paused refl))
            (drain_answers true refl))
          (stops_registry refl))
        (calls_shutdown refl))
      (main_returns refl),
  refl,
  refl,
  refl,
)
