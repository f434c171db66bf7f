-- ===== src/Store/Found.antt =====
-- What `Get` finds after each statement.
use rollhook.Prelude.{
  ℕ, Bool, true, Option, none, some, [], ◌∷◌, ◌++◌, if◌then◌else◌, ◌≡◌, ◌≢◌, refl, ap, sym, ◌∙◌,
  Bool-cases, inl, inr, All,
}
use rollhook.Text.{Bytes, codes, beq}
use rollhook.Text.Equality.{beq-cases}
use rollhook.Store.{
  JobStatus, status_running, status_failed, status_text, Failure, interrupted, Job, Table, to_row,
  scan_job, find_row, update_rows, insert, get, update_status, update_discovery, is_running,
  mark_interrupted_jobs_failed,
}
use rollhook.Store.Rows.{
  when, find_row-id, find_row-update_rows, find_row-append_none, find_row-append_ne,
}

-- What `Get` makes of a row.
pub get-found :
    (id : Bytes) (rows : Table) (row : Job)
    → find_row id rows ≡ some row
    → get id rows ≡ some (scan_job row)
unfolding get
get-found id rows row h = rw (h, get) refl

get-update_rows :
    (p : Job → Bool) (f : Job → Job) (id : Bytes) (rows : Table) (row : Job)
    → ((x : Job) → (f x).id ≡ x.id)
    → find_row id rows ≡ some row
    → get id (update_rows p f rows) ≡ some (scan_job (if p row then f row else row))
unfolding get when
get-update_rows p f id rows row keeps h =
    ap (λ o. elim o [ none ↦ none | some x ↦ some (scan_job x) ])
      (find_row-update_rows p f id rows keeps ∙ ap (when p f) h)

-- After `Insert` of a job with a new identifier, `Get` finds it, without its Compose path, service
-- and error, and with its times cut to the second; what it finds under every other identifier
-- stays.
pub get-insert :
    (job : Job) (rows : Table)
    → find_row job.id rows ≡ none
    → (rows' : Table) × (insert job rows ≡ some rows')
      × (get job.id rows' ≡ some (scan_job (to_row job)))
      × ((other : Bytes) → other ≢ job.id → get other rows' ≡ get other rows)
unfolding insert get
get-insert job rows fresh = (
  rows ++ to_row job ∷ [],
  ap (λ o. elim o [ some _ ↦ none | none ↦ some (rows ++ to_row job ∷ []) ]) fresh,
  ap (λ o. elim o [ none ↦ none | some x ↦ some (scan_job x) ])
      (find_row-append_none job.id rows (to_row job) fresh refl),
  λ other ne.
      ap (λ o. elim o [ none ↦ none | some x ↦ some (scan_job x) ])
        (find_row-append_ne other rows (to_row job)
          (elim (beq-cases job.id other) [ inl (_, e) ↦ absurd (ne (sym e)) | inr (b, _) ↦ b ])),
)

-- `UpdateStatus` sets the status, the error and the time of the row with the identifier and nothing
-- else: this is what `Get` finds after it under an identifier that has a row.
pub get-update_status :
    (now : ℕ) (id other : Bytes) (status : JobStatus) (error : Option Failure) (rows : Table)
    (row : Job)
    → find_row other rows ≡ some row
    → get other (update_status now id status error rows)
      ≡ some (
          scan_job (
            if beq other id
            then record row { status = status; error = error; updated_at = now }
            else row))
unfolding update_status
get-update_status now id other status error rows row h =
    get-update_rows (λ x. beq x.id id)
      (λ x. record x { status = status; error = error; updated_at = now }) other rows row
      (λ x. refl) h
    ∙ ap
        (λ i. some (
          scan_job (
            if beq i id
            then record row { status = status; error = error; updated_at = now }
            else row)))
        (find_row-id other rows row h)

-- `UpdateDiscovery` sets the Compose path, the service and the time of that row and nothing else.
pub get-update_discovery :
    (now : ℕ) (id other path service : Bytes) (rows : Table) (row : Job)
    → find_row other rows ≡ some row
    → get other (update_discovery now id path service rows)
      ≡ some (
          scan_job (
            if beq other id
            then record row { compose_path = some path; service = some service; updated_at = now }
            else row))
unfolding update_discovery
get-update_discovery now id other path service rows row h =
    get-update_rows (λ x. beq x.id id)
      (λ x. record x { compose_path = some path; service = some service; updated_at = now }) other
      rows row (λ x. refl) h
    ∙ ap
        (λ i. some (
          scan_job (
            if beq i id
            then record row { compose_path = some path; service = some service; updated_at = now }
            else row)))
        (find_row-id other rows row h)

-- The clean-up at the start: a row that was running is failed with the error of the interruption, a
-- row in another status, queued ones too, is as before.
pub get-mark_interrupted_jobs_failed :
    (now : ℕ) (id : Bytes) (rows : Table) (row : Job)
    → find_row id rows ≡ some row
    → get id (mark_interrupted_jobs_failed now rows)
      ≡ some (
          scan_job (
            if is_running row
            then record row { status = status_failed; error = some interrupted; updated_at = now }
            else row))
unfolding mark_interrupted_jobs_failed
get-mark_interrupted_jobs_failed now id rows row h =
    get-update_rows is_running
      (λ x. record x { status = status_failed; error = some interrupted; updated_at = now }) id rows
      row (λ x. refl) h

-- After the clean-up no row is running.
pub mark_interrupted_jobs_failed-none_running :
    (now : ℕ) (rows : Table)
    → All (λ row. row.status ≢ status_running) (mark_interrupted_jobs_failed now rows)
unfolding mark_interrupted_jobs_failed update_rows is_running beq
mark_interrupted_jobs_failed-none_running now [] = tt
mark_interrupted_jobs_failed-none_running now (r ∷ rows) =
    (not_running, mark_interrupted_jobs_failed-none_running now rows)
  where
    failed : Job
    failed = record r { status = status_failed; error = some interrupted; updated_at = now }

    not_running : (if is_running r then failed else r).status ≢ status_running
    not_running e = elim (Bool-cases (is_running r)) [
      | inl b ↦
          let s = ap (λ t. (if t then failed else r).status) b in
          let clash : status_failed ≡ status_running = sym s ∙ e in cc
      | inr b ↦
          let s = ap (λ t. (if t then failed else r).status) b in
          let on : r.status ≡ status_running = sym s ∙ e in
          let t : is_running r ≡ true = ap (λ x. beq (status_text x) (codes "running")) on in cc
    ]
