-- ===== src/JobQueue.antt =====
-- internal/jobs/queue.go: the bounded channel of jobs, its one worker and `Drain`. Each step is
-- atomic: a critical section of the mutex, a receive of the worker, or the end of a job.
pub mod Order
pub mod Settled
pub mod Drained
pub mod Tests
use rollhook.Prelude.{
  ℕ, Bool, true, false, Option, none, some, List, [], ◌∷◌, ◌++◌, Result, ok, err, ltb, length,
  if◌then◌else◌, ◌≡◌,
}

pub data QueueError : Type 0 where
  queue_full queue_drained : QueueError

-- `make(chan func(context.Context), 1024)`
abbrev pub capacity : ℕ
capacity = 1024

-- The buffer of the channel, the job that the worker runs, `drained` (set together with
-- `close(q.ch)`), whether the worker has returned (`wg.Done`), and whether a `Drain` waits for it.
pub record Queue (J : Type 0) : Type 0 where
  pub buffer : List J
  pub running : Option J
  pub drained : Bool
  pub exited : Bool
  pub waiting : Bool

pub data Event (J : Type 0) : Type 0 where
  enqueued : J → Result QueueError (Unit {0}) → Event J
  started finished : J → Event J
  worker_done : Event J
  drain_begun : Event J
  drain_returned : Bool → Event J

module _ {J : Type 0} where
  pub new_queue : Queue J
  new_queue = record {
    buffer = [];
    running = none;
    drained = false;
    exited = false;
    waiting = false;
  }

  -- The non-blocking send of `select`: it succeeds while the buffer has room.
  pub enqueue : J → Queue J → Result QueueError (Unit {0}) × Queue J
  enqueue fn q =
      if q.drained
      then (err queue_drained, q)
      else if ltb (length q.buffer) capacity
      then (ok tt, record q { buffer = q.buffer ++ fn ∷ [] })
      else (err queue_full, q)

  -- The critical section of `Drain`: a second call returns at once.
  pub drain : Queue J → Event J × Queue J
  drain q =
      if q.drained
      then (drain_returned true, q)
      else (drain_begun, record q { drained = true; waiting = true })

  receive : List J → Queue J → Option (Event J × Queue J)
  receive (fn ∷ fns) q = some (started fn, record q { buffer = fns; running = some fn })
  receive [] q = if q.drained then some (worker_done, record q { exited = true }) else none

  -- `for fn := range q.ch { fn(q.ctx) }`: the loop ends when the channel is closed and empty;
  -- `none` is a worker that has returned or blocks.
  work : Option J → Queue J → Option (Event J × Queue J)
  unfolding receive
  work (some fn) q = some (finished fn, record q { running = none })
  work none q = if q.exited then none else receive q.buffer q

  pub worker : Queue J → Option (Event J × Queue J)
  unfolding work
  worker q = work q.running q

  -- The `select` of a waiting `Drain` takes either case that is ready.
  pub data Step (q : Queue J) : Event J → Queue J → Type 0 where
    send : (fn : J) → Step q (enqueued fn (enqueue fn q).0) (enqueue fn q).1
    close : Step q (drain q).0 (drain q).1
    turn : {e : Event J} {q' : Queue J} → worker q ≡ some (e, q') → Step q e q'
    done :
        q.waiting ≡ true
        → q.exited ≡ true
        → Step q (drain_returned true) (record q { waiting = false })
    timeout : q.waiting ≡ true → Step q (drain_returned false) (record q { waiting = false })

  -- The runs from `NewQueue` on, with what happened in them.
  pub data Run : List (Event J) → Queue J → Type 0 where
    start : Run [] new_queue
    later :
        {es : List (Event J)} {e : Event J} {q q' : Queue J}
        → Run es q
        → Step q e q'
        → Run (es ++ e ∷ []) q'

  pub accepted : List (Event J) → List J
  accepted [] = []
  accepted (enqueued fn (ok _) ∷ es) = fn ∷ accepted es
  accepted (_ ∷ es) = accepted es

  pub begun : List (Event J) → List J
  begun [] = []
  begun (started fn ∷ es) = fn ∷ begun es
  begun (_ ∷ es) = begun es

  pub ended : List (Event J) → List J
  ended [] = []
  ended (finished fn ∷ es) = fn ∷ ended es
  ended (_ ∷ es) = ended es

  pub in_flight : Queue J → List J
  in_flight q = elim q.running [ none ↦ [] | some fn ↦ fn ∷ [] ]
