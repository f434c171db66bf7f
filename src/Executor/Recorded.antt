-- ===== src/Executor/Recorded.antt =====
-- How a run ends, and what it records of its end.
use rollhook.Prelude.{
  ℕ, ◌/◌, true, Option, none, some, Result, ok, err, if◌then◌else◌, ◌≡◌, ◌≢◌, refl, ap, ◌∙◌,
}
use rollhook.Text.{Bytes}
use rollhook.Effect.{Err, attempt, ◌>>=◌}
use rollhook.Store.{
  Job, Table, find_row, update_status, update_discovery, JobStatus, Failure, run_error,
  status_running, status_success, status_failed,
}
use rollhook.Store.Rows.{
  find_row-update_status, find_row-update_discovery, find_row-update_status_ne,
  find_row-update_discovery_ne,
}
use rollhook.Executor.{Libraries, State, run_sql, execute, finish, run}
use rollhook.Executor.Keeps.{
  Keeps, Keeps-pure, Keeps-then, Keeps-attempt, Keeps-log, Keeps-run_sql, execute-Keeps,
}

-- The table has a row for the identifier.
abbrev pub HasRow : Bytes → Table → Type 0
HasRow id t = (row : Job) × (find_row id t ≡ some row)

module _ {W : Type 0} (lib : Libraries W) where
  finish-Keeps :
      (P : Table → Type 0) (job : Job) (r : Result Err (Unit {0}))
      → ((now : ℕ) (s : JobStatus) (e : Option Failure) (t : Table)
          → P t
          → P (update_status now job.id s e t))
      → Keeps P (finish lib job r)
  unfolding finish
  finish-Keeps P job (ok _) k = Keeps-then P _ _ (Keeps-log P _) λ _.
      Keeps-then P _ _ (Keeps-run_sql lib P _ (λ now. k now status_success none))
        λ _. Keeps-pure P _
  finish-Keeps P job (err e) k = Keeps-then P _ _ (Keeps-log P _) λ _.
      Keeps-then P _ _ (Keeps-run_sql lib P _ (λ now. k now status_failed (some (run_error e))))
        λ _. Keeps-pure P _

  -- A run of a job leaves the rows of all other jobs as they are, whatever fails in it.
  pub run-keeps_others :
      (secret : Bytes) (job : Job) (other : Bytes) (s : State W)
      → other ≢ job.id
      → find_row other (run lib secret job s).2.table ≡ find_row other s.table
  unfolding run
  run-keeps_others secret job other s ne =
      (Keeps-then P _ _ (Keeps-run_sql lib P _ (λ now. by_status now status_running none)) λ _.
          Keeps-then P _ _ (Keeps-attempt P (execute-Keeps lib P secret job by_discovery))
            λ r. finish-Keeps P job r by_status).at
        s refl
    where
      P : Table → Type 0
      P t = find_row other t ≡ find_row other s.table

      by_status :
          (now : ℕ) (st : JobStatus) (e : Option Failure) (t : Table)
          → P t
          → P (update_status now job.id st e t)
      by_status now st e t h = find_row-update_status_ne now job.id other st e t ne ∙ h

      by_discovery :
          (now : ℕ) (path service : Bytes) (t : Table)
          → P t
          → P (update_discovery now job.id path service t)
      by_discovery now path service t h =
          find_row-update_discovery_ne now job.id other path service t ne ∙ h

  -- The state in which `execute` starts.
  abbrev pub begin : Job → State W → State W
  begin job s = (run_sql lib (λ now. update_status now job.id status_running none) s).2

  -- What a run says of its end.
  abbrev pub Says : Result Err (Unit {0}) → JobStatus → Option Failure → Type 0
  Says (ok _) status error = (status ≡ status_success) × (error ≡ none)
  Says (err e) status error = (status ≡ status_failed) × (error ≡ some (run_error e))

  stored :
      (job : Job) (s : State W) (status : JobStatus) (error : Option Failure)
      → ((w : W) → (lib.exec w).0 ≡ true)
      → HasRow job.id s.table
      → (row : Job) × (find_row job.id
            (run_sql lib (λ now. update_status now job.id status error) s).2.table
          ≡ some row)
        × (row.status ≡ status)
        × (row.error ≡ error)
  unfolding run_sql
  stored job s status error sql (row, h) =
      let now = lib.host.clock (lib.exec s.world).1 / 1000 in
      (
        record row { status = status; error = error; updated_at = now },
        ap
              (λ b.
                find_row job.id
                  (if b then update_status now job.id status error s.table else s.table))
              (sql s.world)
            ∙ find_row-update_status now job.id status error s.table row h,
        refl,
        refl,
      )

  finish-Says :
      (job : Job) (r : Result Err (Unit {0})) (s : State W)
      → ((w : W) → (lib.exec w).0 ≡ true)
      → HasRow job.id s.table
      → (row : Job) × (job' : Job) × ((finish lib job r s).0 ≡ ok job')
        × (find_row job.id (finish lib job r s).2.table ≡ some row)
        × Says r row.status row.error
        × Says r job'.status job'.error
  unfolding finish run_sql ◌>>=◌
  finish-Says job (ok _) s sql has =
      let (row, h, st, er) = stored job s status_success none sql has in
      (row, _, refl, h, (st, er), (refl, refl))
  finish-Says job (err e) s sql has =
      let (row, h, st, er) = stored job s status_failed (some (run_error e)) sql has in
      (row, _, refl, h, (st, er), (refl, refl))

  -- Where the SQL statements succeed, a run of a job that has a row ends, and its row and the job
  -- that the notifier is given say success when `execute` returned no error, and else failure with
  -- that error.
  pub run-recorded :
      (secret : Bytes) (job : Job) (s : State W)
      → ((w : W) → (lib.exec w).0 ≡ true)
      → HasRow job.id s.table
      → (row : Job) × (job' : Job) × ((run lib secret job s).0 ≡ ok job')
        × (find_row job.id (run lib secret job s).2.table ≡ some row)
        × Says (execute lib secret job (begin job s)).0 row.status row.error
        × Says (execute lib secret job (begin job s)).0 job'.status job'.error
  unfolding run ◌>>=◌ attempt run_sql
  run-recorded secret job s sql has =
      let x = execute lib secret job (begin job s) in
      finish-Says job x.0 x.2 sql (
        (execute-Keeps lib (HasRow job.id) secret job by_discovery).at (begin job s)
          ((Keeps-run_sql lib (HasRow job.id) _ by_status).at s has))
    where
      by_status :
          (now : ℕ) (t : Table)
          → HasRow job.id t
          → HasRow job.id (update_status now job.id status_running none t)
      by_status now t (row, h) = (_, find_row-update_status now job.id _ _ t row h)

      by_discovery :
          (now : ℕ) (path service : Bytes) (t : Table)
          → HasRow job.id t
          → HasRow job.id (update_discovery now job.id path service t)
      by_discovery now path service t (row, h) =
          (_, find_row-update_discovery now job.id path service t row h)
