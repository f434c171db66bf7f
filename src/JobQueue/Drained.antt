-- ===== src/JobQueue/Drained.antt =====
-- The queue after `Drain`: nothing more is taken, and the worker ends when all that was taken is
-- done.
use rollhook.Prelude.{
  ℕ, zero, suc, ◌*◌, ◌≤◌, ◌<◌, Bool, true, false, Option, none, some, List, [], ◌∷◌, ◌++◌, length,
  arith, ◌≡◌, refl, ap, subst, sym, ◌∙◌, append-nil,
}
use rollhook.JobQueue.{
  Queue, Event, receive, work, worker, Step, Run, accepted, begun, ended, in_flight,
}
use rollhook.JobQueue.Order.{accepted-append, Run-Fifo, begun-ended}
use rollhook.JobQueue.Settled.{fields, Settled, Step-Settled, Run-Settled}

module _ {J : Type 0} where
  -- In every run, once the worker has returned, the finished jobs are exactly the accepted ones, in
  -- their order: a `Drain` that its `done` channel ended has left nothing behind.
  pub Run-drained_complete :
      (es : List (Event J)) (q : Queue J) → Run es q → q.exited ≡ true → accepted es ≡ ended es
  unfolding in_flight
  Run-drained_complete es q r x =
      let (empty, idle, _) = Run-Settled es q r x in
      Run-Fifo es q r
      ∙ ap (λ l. begun es ++ l) empty
      ∙ append-nil (begun es)
      ∙ begun-ended es q r
      ∙ ap (λ o. ended es ++ elim o [ none ↦ [] | some fn ↦ fn ∷ [] ]) idle
      ∙ append-nil (ended es)

  -- What happens from a queue on.
  pub data Steps : Queue J → List (Event J) → Queue J → Type 0 where
    here : {q : Queue J} → Steps q [] q
    next :
        {q p q' : Queue J} {e : Event J} {es : List (Event J)}
        → Step q e p
        → Steps p es q'
        → Steps q (e ∷ es) q'

  shut-Steps :
      (q q' : Queue J) (es : List (Event J))
      → Settled q
      → q.drained ≡ true
      → Steps q es q'
      → accepted es ≡ []
  unfolding accepted
  shut-Steps q q' es s d here = refl
  shut-Steps q q' es s d (next {p = p} {e = e} {es = fs} one rest) =
      let (s', shut) = Step-Settled one s in
      let (none_taken, d') = shut d in
      accepted-append (e ∷ []) fs
      ∙ ap (λ l. l ++ accepted fs) none_taken
      ∙ shut-Steps p q' fs s' d' rest

  -- Whatever happens in a run after `drained` is set, in any order, nothing more is taken.
  pub Steps-drained :
      (before es : List (Event J)) (q q' : Queue J)
      → Run before q
      → q.drained ≡ true
      → Steps q es q'
      → accepted es ≡ []
  Steps-drained before es q q' r d rest = shut-Steps q q' es (Run-Settled before q r) d rest

  -- The turns of the worker alone.
  pub turns : ℕ → Queue J → Queue J
  turns zero q = q
  turns (suc n) q = elim (worker q) [ none ↦ q | some (_, q') ↦ turns n q' ]

  stays :
      (n : ℕ) (buf : List J) (drained waiting : Bool)
      → (turns n (fields none buf drained true waiting)).exited ≡ true
  unfolding turns worker work
  stays zero buf drained waiting = refl
  stays (suc n) buf drained waiting = refl

  idle_exits :
      (n : ℕ) (buf : List J) (waiting : Bool)
      → 2 * length buf ≤ n
      → (turns (suc n) (fields none buf true false waiting)).exited ≡ true
  unfolding turns worker work receive
  idle_exits n [] waiting h = stays n [] true waiting
  idle_exits zero (fn ∷ buf) waiting h = ground (arith, h)
  idle_exits (suc zero) (fn ∷ buf) waiting h = ground (arith, h)
  idle_exits (suc (suc n)) (fn ∷ buf) waiting h = idle_exits n buf waiting (omega (arith, h))

  field_exits :
      (n : ℕ) (run : Option J) (buf : List J) (waiting exited : Bool)
      → 2 * length buf < n
      → Settled (fields run buf true exited waiting)
      → (turns (suc n) (fields run buf true exited waiting)).exited ≡ true
  unfolding turns worker work
  field_exits n run buf waiting true h s =
      subst (λ r. (turns (suc n) (fields r buf true true waiting)).exited ≡ true) (sym (s refl).1)
        (stays (suc n) buf true waiting)
  field_exits n none buf waiting false h s = idle_exits n buf waiting (omega (arith, h))
  field_exits zero (some fn) buf waiting false h s = ground (arith, h)
  field_exits (suc n) (some fn) buf waiting false h s = idle_exits n buf waiting (omega (arith, h))

  -- In every run, once `drained` is set, the worker returns after at most two turns for each job in
  -- the buffer and two more, if the jobs end: `Drain` is woken.
  pub Run-drain_ends :
      (es : List (Event J)) (q : Queue J) (n : ℕ)
      → Run es q
      → q.drained ≡ true
      → 2 * length q.buffer < n
      → (turns (suc n) q).exited ≡ true
  Run-drain_ends es q n r d h =
      subst (λ b. (turns (suc n) (fields q.running q.buffer b q.exited q.waiting)).exited ≡ true)
        (sym d)
        (field_exits n q.running q.buffer q.waiting q.exited h
          (λ x. let s = Run-Settled es q r x in (s.0, s.1, refl)))
