-- ===== src/Api/Deploy/Verdict.antt =====
-- What a synchronous `POST /deploy` answers.
use rollhook.Prelude.{
  true, none, some, List, [], ◌∷◌, ◌++◌, Result, ok, err, ◌≡◌, refl, ap, ◌∙◌, ◌⊎◌, inl, inr, All,
}
use rollhook.Text.{Bytes}
use rollhook.Effect.{Err}
use rollhook.Store.{
  status_queued, status_running, status_success, status_failed, run_error, Job, scan_job, get,
}
use rollhook.Store.Found.{get-found}
use rollhook.Executor.{Libraries, State, execute, run}
use rollhook.Executor.Recorded.{HasRow, Says, begin, run-recorded}
use rollhook.Api.Jobs.{body}
use rollhook.Api.Deploy.{DeployOutput, Tick, request_done, deadline, polled, completed, wait}

-- A poll that does not find the end of the job.
abbrev pub IsPending : Tick → Type 0
IsPending (polled none) = Unit
IsPending (polled (some row)) = (row.status ≡ status_queued) ⊎ (row.status ≡ status_running)
IsPending request_done = ⊥
IsPending deadline = ⊥

-- The answer for a run that ended so.
abbrev pub Reports : Result Err (Unit {0}) → DeployOutput → Type 0
Reports (ok _) out = (out.status ≡ 200) × (out.job_status ≡ status_success) × (out.error ≡ none)
Reports (err e) out =
    (out.status ≡ 500) × (out.job_status ≡ status_failed) × (out.error ≡ some (run_error e))

wait-pending :
    (job : Job) (before ticks : List Tick)
    → All IsPending before
    → wait job (before ++ ticks) ≡ wait job ticks
unfolding wait completed
wait-pending job [] ticks h = refl
wait-pending job (polled none ∷ before) ticks h = wait-pending job before ticks h.1
wait-pending job (polled (some row) ∷ before) ticks h = elim h.0 [
  | inl e ↦ rw e (wait-pending job before ticks h.1)
  | inr e ↦ rw e (wait-pending job before ticks h.1)
]
wait-pending job (request_done ∷ before) ticks h = elim h.0 [ ]
wait-pending job (deadline ∷ before) ticks h = elim h.0 [ ]

module _ {W : Type 0} (lib : Libraries W) where
  wait-Says :
      (job : Job) (result : Result Err (Unit {0})) (row : Job)
      → Says lib result row.status row.error
      → (out : DeployOutput) × (wait job (polled (some (scan_job row)) ∷ []) ≡ some (body out))
        × Reports result out
  unfolding wait completed
  wait-Says job (ok _) row h = rw h.0 (_, refl, (refl, refl, h.1))
  wait-Says job (err e) row h = rw h.0 (_, refl, (refl, refl, h.1))

  -- Where the SQL statements succeed: a request that polls while the job is not ended, or while the
  -- query fails, and then polls the table as the run of the job leaves it, is answered at that
  -- poll, with 200 and success when the deployment returned no error, else with 500, failed and
  -- that error.
  pub wait-run :
      (secret : Bytes) (job : Job) (s : State W) (before : List Tick)
      → ((w : W) → (lib.exec w).0 ≡ true)
      → HasRow job.id s.table
      → All IsPending before
      → (out : DeployOutput) × (wait job
            (before ++ polled (get job.id (run lib secret job s).2.table) ∷ [])
          ≡ some (body out))
        × Reports (execute lib secret job (begin lib job s)).0 out
  wait-run secret job s before sql has pending =
      let (row, _, _, found, says, _) = run-recorded lib secret job s sql has in
      let (out, answered, reports) =
        wait-Says job (execute lib secret job (begin lib job s)).0 row says in
      (
        out,
        wait-pending job before _ pending
            ∙ ap (λ r. wait job (polled r ∷ [])) (get-found job.id _ row found)
            ∙ answered,
        reports,
      )
