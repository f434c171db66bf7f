-- ===== src/JobQueue/Order.antt =====
-- The order and the bound of the job queue.
use rollhook.Prelude.{
  ◌≤◌, ◌<◌, ◌⊎◌, Result, err, if◌then◌else◌, Bool, true, false, Option, none, some, List, [], ◌∷◌,
  ◌++◌, ok, ltb, length, arith, ◌≡◌, refl, subst, ap, sym, ◌∙◌, append-nil, append_assoc,
  length-append, Bool-cases, inl, inr,
}
use rollhook.JobQueue.{
  QueueError, queue_full, queue_drained, Queue, Event, enqueued, started, finished, new_queue,
  enqueue, drain, receive, work, worker, Step, send, close, turn, done, timeout, Run, start, later,
  accepted, begun, ended, in_flight, capacity,
}

module _ {J : Type 0} where
  pub accepted-append : (xs ys : List (Event J)) → accepted (xs ++ ys) ≡ accepted xs ++ accepted ys
  unfolding accepted
  accepted-append [] ys = refl
  accepted-append (enqueued fn (ok _) ∷ es) ys = ap (◌∷◌ fn) (accepted-append es ys)
  accepted-append (_ ∷ es) ys = accepted-append es ys

  pub begun-append : (xs ys : List (Event J)) → begun (xs ++ ys) ≡ begun xs ++ begun ys
  unfolding begun
  begun-append [] ys = refl
  begun-append (started fn ∷ es) ys = ap (◌∷◌ fn) (begun-append es ys)
  begun-append (_ ∷ es) ys = begun-append es ys

  pub ended-append : (xs ys : List (Event J)) → ended (xs ++ ys) ≡ ended xs ++ ended ys
  unfolding ended
  ended-append [] ys = refl
  ended-append (finished fn ∷ es) ys = ap (◌∷◌ fn) (ended-append es ys)
  ended-append (_ ∷ es) ys = ended-append es ys

  -- Of a step: what it accepts enters the buffer at its end, what it starts leaves the buffer at
  -- its front, a job runs from its start to its end and alone, and the buffer keeps its bound.
  abbrev Flow : Queue J → Event J → Queue J → Type 0
  Flow q e q' =
      (q.buffer ++ accepted (e ∷ []) ≡ begun (e ∷ []) ++ q'.buffer)
      × (in_flight q ++ begun (e ∷ []) ≡ ended (e ∷ []) ++ in_flight q')
      × (length q.buffer ≤ capacity → length q'.buffer ≤ capacity)

  pub of_some :
      (P : Event J → Queue J → Type 0) (a : Event J × Queue J) (e : Event J) (q' : Queue J)
      → P a.0 a.1
      → Path (Option (Event J × Queue J)) (some a) (some (e, q'))
      → P e q'
  of_some P a e q' h eq = subst (λ t. P t.0 t.1) (ap (λ o. elim o [ none ↦ a | some x ↦ x ]) eq) h

  worker-Flow :
      (run : Option J) (buf : List J) (drained exited waiting : Bool) (e : Event J) (q' : Queue J)
      → worker (record {
        buffer = buf;
        running = run;
        drained = drained;
        exited = exited;
        waiting = waiting;
      })
        ≡ some (e, q')
      → Flow
          (record {
            buffer = buf;
            running = run;
            drained = drained;
            exited = exited;
            waiting = waiting;
          })
          e
          q'
  unfolding accepted begun ended in_flight worker work receive
  worker-Flow (some fn) buf drained exited waiting e q' h =
      of_some
        (λ e q'.
          Flow
            (record {
              buffer = buf;
              running = some fn;
              drained = drained;
              exited = exited;
              waiting = waiting;
            })
            e q')
        _ e q' (append-nil buf, refl, λ b. b) h
  worker-Flow none buf drained true waiting e q' h = ground (arith, h)
  worker-Flow none (fn ∷ buf) drained false waiting e q' h =
      of_some
        (λ e q'.
          Flow
            (record {
              buffer = fn ∷ buf;
              running = none;
              drained = drained;
              exited = false;
              waiting = waiting;
            })
            e q')
        _ e q' (append-nil _, refl, λ b. omega (arith, b)) h
  worker-Flow none [] true false waiting e q' h =
      of_some
        (λ e q'.
          Flow
            (record {
              buffer = [];
              running = none;
              drained = true;
              exited = false;
              waiting = waiting;
            })
            e q')
        _ e q' (refl, refl, λ b. b) h
  worker-Flow none [] false false waiting e q' h = ground (arith, h)

  enqueue-Flow : (fn : J) (q : Queue J) → Flow q (enqueued fn (enqueue fn q).0) (enqueue fn q).1
  unfolding accepted begun ended in_flight enqueue
  enqueue-Flow fn q = elim (Bool-cases q.drained) [
    | inl d ↦ rw d (append-nil _, append-nil _, λ b. b)
    | inr d ↦ elim (Bool-cases (ltb (length q.buffer) capacity)) [
      | inl l ↦
          let n = length-append q.buffer (fn ∷ []) in
          rw (d, l) (refl, append-nil _, λ b. ground (arith, l, n))
      | inr l ↦ rw (d, l) (append-nil _, append-nil _, λ b. b)
    ]
  ]

  drain-Flow : (q : Queue J) → Flow q (drain q).0 (drain q).1
  unfolding accepted begun ended in_flight drain
  drain-Flow q = elim (Bool-cases q.drained) [
    | inl d ↦ rw d (append-nil _, append-nil _, λ b. b)
    | inr d ↦ rw d (append-nil _, append-nil _, λ b. b)
  ]

  Step-Flow : {q q' : Queue J} {e : Event J} → Step q e q' → Flow q e q'
  unfolding accepted begun ended in_flight
  Step-Flow (send fn) = enqueue-Flow fn _
  Step-Flow close = drain-Flow _
  Step-Flow (turn h) = worker-Flow _ _ _ _ _ _ _ h
  Step-Flow (done _ _) = (append-nil _, append-nil _, λ b. b)
  Step-Flow (timeout _) = (append-nil _, append-nil _, λ b. b)

  -- In every run the jobs that `Enqueue` took are, in their order and each once, those that the
  -- worker started and then those still in the buffer.
  pub Run-Fifo : (es : List (Event J)) (q : Queue J) → Run es q → accepted es ≡ begun es ++ q.buffer
  unfolding accepted begun new_queue
  Run-Fifo es q start = refl
  Run-Fifo es q (later {es = fs} {e = e} {q = p} r s) =
      accepted-append fs (e ∷ [])
      ∙ ap (λ l. l ++ accepted (e ∷ [])) (Run-Fifo fs p r)
      ∙ append_assoc (begun fs) p.buffer (accepted (e ∷ []))
      ∙ ap (◌++◌ (begun fs)) (Step-Flow s).0
      ∙ sym (append_assoc (begun fs) (begun (e ∷ [])) q.buffer)
      ∙ ap (λ l. l ++ q.buffer) (sym (begun-append fs (e ∷ [])))

  pub begun-ended :
      (es : List (Event J)) (q : Queue J) → Run es q → begun es ≡ ended es ++ in_flight q
  unfolding begun ended in_flight new_queue
  begun-ended es q start = refl
  begun-ended es q (later {es = fs} {e = e} {q = p} r s) =
      begun-append fs (e ∷ [])
      ∙ ap (λ l. l ++ begun (e ∷ [])) (begun-ended fs p r)
      ∙ append_assoc (ended fs) (in_flight p) (begun (e ∷ []))
      ∙ ap (◌++◌ (ended fs)) (Step-Flow s).1
      ∙ sym (append_assoc (ended fs) (ended (e ∷ [])) (in_flight q))
      ∙ ap (λ l. l ++ in_flight q) (sym (ended-append fs (e ∷ [])))

  -- In every run the started jobs are, in their order, the finished ones and then the one that
  -- runs, if there is one, so no job starts before the one before it has ended; and the jobs that
  -- `Enqueue` took are, in their order, the finished ones, the one that runs and those in the
  -- buffer, so that each of them is started at most once.
  pub Run-Sequential :
      (es : List (Event J)) (q : Queue J)
      → Run es q
      → (begun es ≡ ended es ++ in_flight q) × (accepted es ≡ (ended es ++ in_flight q) ++ q.buffer)
  Run-Sequential es q r =
      (begun-ended es q r, Run-Fifo es q r ∙ ap (λ l. l ++ q.buffer) (begun-ended es q r))

  -- In every run the buffer holds at most 1024 jobs.
  pub Run-Bounded : (es : List (Event J)) (q : Queue J) → Run es q → length q.buffer ≤ capacity
  unfolding new_queue
  Run-Bounded es q start = omega arith
  Run-Bounded es q (later {es = fs} {q = p} r s) = (Step-Flow s).2 (Run-Bounded fs p r)

  -- What `Enqueue` does: it takes the job at the end of the buffer, or it changes nothing.
  pub enqueue-cases :
      (fn : J) (q : Queue J)
      → ((enqueue fn q ≡ (ok tt, record q { buffer = q.buffer ++ fn ∷ [] }))
          × (q.drained ≡ false)
          × (length q.buffer < capacity))
        ⊎ ((e : QueueError) × (enqueue fn q ≡ (err e, q)))
  unfolding enqueue
  enqueue-cases fn q = elim (Bool-cases q.drained) [
    | inl d ↦ inr (queue_drained, ap (λ b. if b then (err queue_drained, q) else sent) d)
    | inr d ↦ elim (Bool-cases (ltb (length q.buffer) capacity)) [
      | inl l ↦ inl (
        ap (λ b. if b then (err queue_drained, q) else sent) d ∙ ap send_if l,
        d,
        ground (arith, l),
      )
      | inr l ↦
          inr (queue_full, ap (λ b. if b then (err queue_drained, q) else sent) d ∙ ap send_if l)
    ]
  ]
    where
      send_if : Bool → Result QueueError (Unit {0}) × Queue J
      send_if b =
          if b then (ok tt, record q { buffer = q.buffer ++ fn ∷ [] }) else (err queue_full, q)

      sent : Result QueueError (Unit {0}) × Queue J
      sent = send_if (ltb (length q.buffer) capacity)
