-- ===== src/Store/Refinement.antt =====
-- The table of jobs as a map: each identifier has its own row, which the statements change
-- independently of all other rows.
use rollhook.Prelude.{
  ℕ, Bool, true, false, Option, none, some, List, [], ◌∷◌, ◌++◌, if◌then◌else◌, ◌≡◌, refl, ap, sym,
  ◌∙◌, Bool-cases, Option-cases, inl, inr,
}
use mathlib.Core.Option
use rollhook.Text.{Bytes, beq}
use rollhook.Text.Equality.{beq-cases, beq_ne}
use rollhook.Store.{
  JobStatus, status_failed, Failure, interrupted, Job, Table, to_row, scan_job, find_row,
  update_rows, insert, get, update_status, update_discovery, is_running,
  mark_interrupted_jobs_failed,
}
use rollhook.Store.Rows.{
  when, find_row-update_rows, find_row-id, find_row-append_none, find_row-append_ne,
}

-- The statements that change the table.
pub data Statement : Type 0 where
  insert_job : Job → Statement
  set_status : ℕ → Bytes → JobStatus → Option Failure → Statement
  set_discovery : ℕ → Bytes → Bytes → Bytes → Statement
  fail_running : ℕ → Statement

-- What a statement does to the table; one that fails does nothing.
abbrev pub after_insert : Table → Option Table → Table
after_insert t none = t
after_insert t (some t') = t'

abbrev pub apply : Statement → Table → Table
apply (insert_job job) t = after_insert t (insert job t)
apply (set_status now id status error) t = update_status now id status error t
apply (set_discovery now id path service) t = update_discovery now id path service t
apply (fail_running now) t = mark_interrupted_jobs_failed now t

abbrev pub apply_all : List Statement → Table → Table
apply_all [] t = t
apply_all (s ∷ ss) t = apply_all ss (apply s t)

-- The specification: what a statement does to what one identifier stands for.
abbrev pub inserted : Job → Option Job → Option Job
inserted job none = some job
inserted job (some row) = some row

abbrev pub failed_at : ℕ → Job → Job
failed_at now row =
    if is_running row
    then record row { status = status_failed; error = some interrupted; updated_at = now }
    else row

abbrev pub status_at : ℕ → JobStatus → Option Failure → Job → Job
status_at now status error row = record row { status = status; error = error; updated_at = now }

abbrev pub discovery_at : ℕ → Bytes → Bytes → Job → Job
discovery_at now path service row = record row {
  compose_path = some path;
  service = some service;
  updated_at = now;
}

abbrev pub spec : Statement → Bytes → Option Job → Option Job
spec (insert_job job) id r = if beq id job.id then inserted (to_row job) r else r
spec (set_status now other status error) id r =
    if beq id other then Option.map (status_at now status error) r else r
spec (set_discovery now other path service) id r =
    if beq id other then Option.map (discovery_at now path service) r else r
spec (fail_running now) id r = Option.map (failed_at now) r

abbrev pub spec_all : List Statement → Bytes → Option Job → Option Job
spec_all [] id r = r
spec_all (s ∷ ss) id r = spec_all ss id (spec s id r)

when-if :
    (id other : Bytes) (f : Job → Job) (r : Option Job)
    → ((row : Job) → r ≡ some row → row.id ≡ id)
    → when (λ row. beq row.id other) f r ≡ (if beq id other then Option.map f r else r)
unfolding when
when-if id other f none h = elim (Bool-cases (beq id other)) [
  | inl e ↦ rw e refl
  | inr e ↦ rw e refl
]
when-if id other f (some row) h =
    ap (λ i. some (if beq i other then f row else row)) (h row refl) ∙ by_test (beq id other)
  where
    by_test :
        (b : Bool)
        → Path
            (Option Job)
            (some (if b then f row else row))
            (if b then Option.map f (some row) else some row)
    by_test true = refl
    by_test false = refl

find_row-statement :
    (id other : Bytes) (f : Job → Job) (t : Table)
    → ((row : Job) → (f row).id ≡ row.id)
    → find_row id (update_rows (λ row. beq row.id other) f t)
      ≡ (if beq id other then Option.map f (find_row id t) else find_row id t)
find_row-statement id other f t keeps =
    find_row-update_rows _ f id t keeps ∙ when-if id other f (find_row id t) (find_row-id id t)

insert-none :
    (job : Job) (t : Table) → find_row job.id t ≡ none → insert job t ≡ some (t ++ to_row job ∷ [])
unfolding insert
insert-none job t e = rw (e, insert) refl

insert-some : (job row : Job) (t : Table) → find_row job.id t ≡ some row → insert job t ≡ none
unfolding insert
insert-some job row t e = rw (e, insert) refl

insert-free :
    (id : Bytes) (job : Job) (t : Table)
    → find_row job.id t ≡ none
    → find_row id (t ++ to_row job ∷ [])
      ≡ (if beq id job.id then inserted (to_row job) (find_row id t) else find_row id t)
insert-free id job t free = elim (beq-cases id job.id) [
  | inl (b, same) ↦
      let here : find_row id t ≡ none = ap (λ i. find_row i t) same ∙ free in
      rw (b, here) (find_row-append_none id t (to_row job) here (sym same))
  | inr (b, differs) ↦
      rw b (find_row-append_ne id t (to_row job) (beq_ne job.id id (λ e. differs (sym e))))
]

insert-taken :
    (id : Bytes) (job row : Job) (t : Table)
    → find_row job.id t ≡ some row
    → find_row id t
      ≡ (if beq id job.id then inserted (to_row job) (find_row id t) else find_row id t)
insert-taken id job row t taken = elim (beq-cases id job.id) [
  | inl (b, same) ↦
      let here : find_row id t ≡ some row = ap (λ i. find_row i t) same ∙ taken in rw (b, here) refl
  | inr (b, _) ↦ rw b refl
]

find_row-insert :
    (id : Bytes) (job : Job) (t : Table)
    → find_row id (after_insert t (insert job t))
      ≡ (if beq id job.id then inserted (to_row job) (find_row id t) else find_row id t)
find_row-insert id job t = elim (Option-cases (find_row job.id t)) [
  | inl free ↦
      ap (λ o. find_row id (after_insert t o)) (insert-none job t free) ∙ insert-free id job t free
  | inr (row, taken) ↦
      ap (λ o. find_row id (after_insert t o)) (insert-some job row t taken)
      ∙ insert-taken id job row t taken
]

find_row-failed :
    (now : ℕ) (r : Option Job)
    → when is_running
        (λ row. record row { status = status_failed; error = some interrupted; updated_at = now })
        r
      ≡ Option.map (failed_at now) r
unfolding when
find_row-failed now none = refl
find_row-failed now (some row) = refl

-- One statement changes what an identifier stands for as the specification says.
apply-spec :
    (s : Statement) (id : Bytes) (t : Table) → find_row id (apply s t) ≡ spec s id (find_row id t)
unfolding update_status update_discovery mark_interrupted_jobs_failed
apply-spec (insert_job job) id t = find_row-insert id job t
apply-spec (set_status now other status error) id t = find_row-statement id other _ t (λ row. refl)
apply-spec (set_discovery now other path service) id t =
    find_row-statement id other _ t (λ row. refl)
apply-spec (fail_running now) id t =
    find_row-update_rows _ _ id t (λ row. refl) ∙ find_row-failed now (find_row id t)

apply_all-spec :
    (ss : List Statement) (id : Bytes) (t : Table)
    → find_row id (apply_all ss t) ≡ spec_all ss id (find_row id t)
apply_all-spec [] id t = refl
apply_all-spec (s ∷ ss) id t =
    apply_all-spec ss id (apply s t) ∙ ap (spec_all ss id) (apply-spec s id t)

get-map : (id : Bytes) (t : Table) → get id t ≡ Option.map scan_job (find_row id t)
unfolding get
get-map id t = elim (Option-cases (find_row id t)) [
  | inl e ↦ rw (e, get) refl
  | inr (row, e) ↦ rw (e, get) refl
]

-- The table refines a map from identifiers to jobs: after any sequence of statements, failed
-- insertions of a known identifier among them, what `Get` reads under an identifier is what that
-- sequence of changes makes of this identifier's own row alone.
pub get-apply_all :
    (ss : List Statement) (id : Bytes) (t : Table)
    → get id (apply_all ss t) ≡ Option.map scan_job (spec_all ss id (find_row id t))
get-apply_all ss id t =
    get-map id (apply_all ss t) ∙ ap (Option.map scan_job) (apply_all-spec ss id t)
