-- ===== src/Executor/Submission.antt =====
-- What the submission of a job leaves behind.
use rollhook.Prelude.{
  Bool, true, false, some, Result, ok, err, [], ◌∷◌, ◌++◌, if◌then◌else◌, ◌≡◌, refl, subst, sym,
  Option-cases, inl, inr,
}
use rollhook.Store.{Job, Table, find_row, insert, to_row}
use rollhook.Store.Rows.{insert-find_row}
use rollhook.JobQueue.{Queue}
use rollhook.JobQueue.Order.{enqueue-cases}
use rollhook.Executor.{
  Libraries, State, SubmitError, no_log_dir, not_inserted, not_enqueued, answered, inserted,
  insert_job, submit,
}

-- What a submission that gives this answer has done to the table and the queue.
abbrev pub Left :
    {W : Type 0} → Job → Table → Queue Job → Result SubmitError (Unit {0}) × State W → Type 0
Left job t q (ok _, s) =
    (find_row job.id s.table ≡ some (to_row job))
    × (insert job t ≡ some s.table)
    × (s.queue ≡ record q { buffer = q.buffer ++ job ∷ [] })
    × (q.drained ≡ false)
Left job t q (err no_log_dir, s) = (s.table ≡ t) × (s.queue ≡ q)
Left job t q (err not_inserted, s) = (s.table ≡ t) × (s.queue ≡ q)
Left job t q (err (not_enqueued _), s) =
    (find_row job.id s.table ≡ some (to_row job)) × (s.queue ≡ q)

module _ {W : Type 0} where
  inserted-Left :
      (job : Job) (s : State W) → Left job s.table s.queue (inserted job (insert job s.table) s)
  unfolding inserted answered
  inserted-Left job s = elim (Option-cases (insert job s.table)) [
    | inl e ↦ subst (λ o. Left job s.table s.queue (inserted job o s)) (sym e) (refl, refl)
    | inr (table, e) ↦
        subst (λ o. Left job s.table s.queue (inserted job o s)) (sym e)
          (elim (enqueue-cases job s.queue) [
            | inl (a, d, _) ↦
                subst (λ p. Left job s.table s.queue (answered p (record s { table = table })))
                  (sym a) (insert-find_row job s.table table e, e, refl, d)
            | inr (_, a) ↦
                subst (λ p. Left job s.table s.queue (answered p (record s { table = table })))
                  (sym a) (insert-find_row job s.table table e, refl)
          ])
  ]

  insert_job-Left :
      (job : Job) (done : Bool) (s : State W) → Left job s.table s.queue (insert_job job done s)
  unfolding insert_job
  insert_job-Left job false s = (refl, refl)
  insert_job-Left job true s = inserted-Left job s

  -- A submission is answered without an error only when the job was inserted and put at the end of
  -- an open queue. When the queue refuses it, its row stays in the table; in every other failure
  -- neither the table nor the queue has changed.
  pub submit-Left :
      (lib : Libraries W) (job : Job) (s : State W) → Left job s.table s.queue (submit lib job s)
  unfolding submit
  submit-Left lib job s = by_dir (lib.make_log_dir s.world).0
    where
      by_dir :
          (made : Bool)
          → Left job s.table s.queue (
              if made
              then (let (done, w'') = lib.exec (lib.make_log_dir s.world).1 in
                  insert_job job done (record s { world = w'' }))
              else (err no_log_dir, record s { world = (lib.make_log_dir s.world).1 }))
      by_dir true = insert_job-Left job _ _
      by_dir false = (refl, refl)
