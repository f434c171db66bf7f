-- ===== src/JobQueue/Tests.antt =====
-- A run of the queue, and the theorems at it.
use rollhook.Prelude.{ℕ, true, false, none, some, List, [], ◌∷◌, ◌++◌, ok, err, ◌≡◌, refl, arith}
use rollhook.JobQueue.{
  Queue, Event, enqueued, started, finished, worker_done, drain_begun, queue_drained, new_queue,
  enqueue, drain, receive, work, worker, send, close, turn, Run, start, later, accepted, begun,
  ended, in_flight,
}
use rollhook.JobQueue.Order.{Run-Fifo, Run-Sequential}
use rollhook.JobQueue.Drained.{
  Steps, here, next, turns, Run-drained_complete, Steps-drained, Run-drain_ends,
}

-- Two jobs, of which the first runs.
abbrev trace : List (Event ℕ)
trace = enqueued 7 (ok tt) ∷ enqueued 8 (ok tt) ∷ started 7 ∷ []

abbrev busy : Queue ℕ
busy = record {
  buffer = 8 ∷ [];
  running = some 7;
  drained = false;
  exited = false;
  waiting = false;
}

two_jobs : Run trace busy
unfolding new_queue enqueue worker work receive
two_jobs = later (later (later start (send 7)) (send 8)) (turn refl)

Run-Fifo_example : accepted trace ≡ begun trace ++ busy.buffer
Run-Fifo_example = Run-Fifo trace busy two_jobs

Run-Sequential_example :
    (begun trace ≡ ended trace ++ in_flight busy)
    × (accepted trace ≡ (ended trace ++ in_flight busy) ++ busy.buffer)
Run-Sequential_example = Run-Sequential trace busy two_jobs

-- One job, then `Drain`.
abbrev closing : List (Event ℕ)
closing = enqueued 7 (ok tt) ∷ started 7 ∷ drain_begun ∷ []

abbrev closed : Queue ℕ
closed = record { buffer = []; running = some 7; drained = true; exited = false; waiting = true }

until_drain : Run closing closed
unfolding new_queue enqueue drain worker work receive
until_drain = later (later (later start (send 7)) (turn refl)) close

refused : Steps closed (enqueued 8 (err queue_drained) ∷ []) closed
unfolding enqueue
refused = next (send 8) here

Steps-drained_example : accepted {J = ℕ} (enqueued 8 (err queue_drained) ∷ []) ≡ []
Steps-drained_example =
    Steps-drained closing (enqueued 8 (err queue_drained) ∷ []) closed closed until_drain refl
      refused

Run-drain_ends_example : (turns 2 closed).exited ≡ true
Run-drain_ends_example = Run-drain_ends closing closed 1 until_drain refl (omega arith)

abbrev whole : List (Event ℕ)
whole = enqueued 7 (ok tt) ∷ started 7 ∷ drain_begun ∷ finished 7 ∷ worker_done ∷ []

abbrev over : Queue ℕ
over = record { buffer = []; running = none; drained = true; exited = true; waiting = true }

until_end : Run whole over
unfolding worker work receive
until_end = later (later until_drain (turn refl)) (turn refl)

Run-drained_complete_example : accepted whole ≡ ended whole
Run-drained_complete_example = Run-drained_complete whole over until_end refl
