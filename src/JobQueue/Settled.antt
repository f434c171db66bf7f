-- ===== src/JobQueue/Settled.antt =====
-- What every step keeps of a queue that is drained and of a worker that has returned.
use rollhook.Prelude.{
  Bool, true, false, Option, none, some, List, [], ◌∷◌, ltb, length, arith, ◌≡◌, refl, Bool-cases,
  inl, inr,
}
use rollhook.JobQueue.{
  Queue, Event, enqueued, new_queue, enqueue, drain, receive, work, worker, Step, send, close, turn,
  done, timeout, Run, start, later, accepted, capacity,
}
use rollhook.JobQueue.Order.{of_some}

module _ {J : Type 0} where
  -- A queue by its fields.
  abbrev pub fields : Option J → List J → Bool → Bool → Bool → Queue J
  fields run buf drained exited waiting = record {
    buffer = buf;
    running = run;
    drained = drained;
    exited = exited;
    waiting = waiting;
  }

  -- A worker that has returned has left nothing behind, and only a drained queue lets it return.
  abbrev pub Settled : Queue J → Type 0
  Settled q = q.exited ≡ true → (q.buffer ≡ []) × (q.running ≡ none) × (q.drained ≡ true)

  -- A drained queue takes nothing more.
  abbrev pub Shut : Queue J → Event J → Queue J → Type 0
  Shut q e q' = q.drained ≡ true → (accepted (e ∷ []) ≡ []) × (q'.drained ≡ true)

  worker-Settled :
      (run : Option J) (buf : List J) (drained exited waiting : Bool) (e : Event J) (q' : Queue J)
      → worker (fields run buf drained exited waiting) ≡ some (e, q')
      → Settled (fields run buf drained exited waiting)
      → Settled q' × Shut (fields run buf drained exited waiting) e q'
  unfolding accepted worker work receive
  worker-Settled (some fn) buf drained exited waiting e q' h s =
      of_some (λ e q'. Settled q' × Shut (fields (some fn) buf drained exited waiting) e q') _ e q'
        ((λ x. ((s x).0, refl, (s x).2)), λ d. (refl, d)) h
  worker-Settled none buf drained true waiting e q' h s = ground (arith, h)
  worker-Settled none (fn ∷ buf) drained false waiting e q' h s =
      of_some (λ e q'. Settled q' × Shut (fields none (fn ∷ buf) drained false waiting) e q') _ e q'
        ((λ x. ground (arith, x)), λ d. (refl, d)) h
  worker-Settled none [] true false waiting e q' h s =
      of_some (λ e q'. Settled q' × Shut (fields none [] true false waiting) e q') _ e q'
        ((λ x. (refl, refl, refl)), λ d. (refl, d)) h
  worker-Settled none [] false false waiting e q' h s = ground (arith, h)

  enqueue-Settled :
      (fn : J) (run : Option J) (buf : List J) (drained exited waiting : Bool)
      → Settled (fields run buf drained exited waiting)
      → Settled (enqueue fn (fields run buf drained exited waiting)).1
        × Shut
            (fields run buf drained exited waiting)
            (enqueued fn (enqueue fn (fields run buf drained exited waiting)).0)
            (enqueue fn (fields run buf drained exited waiting)).1
  unfolding accepted enqueue
  enqueue-Settled fn run buf true exited waiting s = (s, λ _. (refl, refl))
  enqueue-Settled fn run buf false exited waiting s =
      elim (Bool-cases (ltb (length buf) capacity)) [
        | inl l ↦ rw l ((λ x. ground (arith, s x)), λ x. ground (arith, x))
        | inr l ↦ rw l (s, λ x. ground (arith, x))
      ]

  drain-Settled :
      (run : Option J) (buf : List J) (drained exited waiting : Bool)
      → Settled (fields run buf drained exited waiting)
      → Settled (drain (fields run buf drained exited waiting)).1
        × Shut
            (fields run buf drained exited waiting)
            (drain (fields run buf drained exited waiting)).0
            (drain (fields run buf drained exited waiting)).1
  unfolding accepted drain
  drain-Settled run buf true exited waiting s = (s, λ _. (refl, refl))
  drain-Settled run buf false exited waiting s =
      ((λ x. ((s x).0, (s x).1, refl)), λ x. ground (arith, x))

  pub Step-Settled :
      {q q' : Queue J} {e : Event J} → Step q e q' → Settled q → Settled q' × Shut q e q'
  unfolding accepted
  Step-Settled (send fn) s = enqueue-Settled fn _ _ _ _ _ s
  Step-Settled close s = drain-Settled _ _ _ _ _ s
  Step-Settled (turn h) s = worker-Settled _ _ _ _ _ _ _ h s
  Step-Settled (done _ _) s = (s, λ d. (refl, d))
  Step-Settled (timeout _) s = (s, λ d. (refl, d))

  pub Run-Settled : (es : List (Event J)) (q : Queue J) → Run es q → Settled q
  unfolding new_queue
  Run-Settled es q start = λ x. ground (arith, x)
  Run-Settled es q (later {es = fs} {q = p} r s) = (Step-Settled s (Run-Settled fs p r)).0
