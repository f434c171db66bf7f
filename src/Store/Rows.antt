-- ===== src/Store/Rows.antt =====
-- What the statements on one row do to the table.
use rollhook.Prelude.{
  Option-cases, ℕ, Bool, true, false, Option, none, some, [], ◌∷◌, ◌++◌, if◌then◌else◌, arith, ◌≡◌,
  ◌≢◌, refl, ap, sym, ◌∙◌, Bool-cases, inl, inr,
}
use rollhook.Text.{Bytes, beq}
use rollhook.Text.Equality.{beq_self, beq-cases}
use rollhook.Store.{
  JobStatus, Failure, Job, Table, to_row, find_row, update_rows, insert, update_status,
  update_discovery,
}

pub find_row-head : (row : Job) (rows : Table) → find_row row.id (row ∷ rows) ≡ some row
unfolding find_row
find_row-head row rows = rw (beq_self row.id) refl

pub find_row-append_none :
    (id : Bytes) (rows : Table) (row : Job)
    → find_row id rows ≡ none
    → row.id ≡ id
    → find_row id (rows ++ row ∷ []) ≡ some row
unfolding find_row
find_row-append_none id [] row h e = rw (e, beq_self id) refl
find_row-append_none id (r ∷ rows) row h e = ground (arith, h, find_row-append_none id rows row)

pub find_row-append_ne :
    (id : Bytes) (rows : Table) (row : Job)
    → beq row.id id ≡ false
    → find_row id (rows ++ row ∷ []) ≡ find_row id rows
unfolding find_row
find_row-append_ne id [] row e = rw e refl
find_row-append_ne id (r ∷ rows) row e = rw (find_row-append_ne id rows row e) refl

-- Of a row that is found, what a statement makes of it.
unfoldable pub when : (Job → Bool) → (Job → Job) → Option Job → Option Job
when p f none = none
when p f (some row) = some (if p row then f row else row)

pub find_row-update_rows :
    (p : Job → Bool) (f : Job → Job) (id : Bytes) (rows : Table)
    → ((row : Job) → (f row).id ≡ row.id)
    → find_row id (update_rows p f rows) ≡ when p f (find_row id rows)
unfolding find_row update_rows when
find_row-update_rows p f id [] keeps = refl
find_row-update_rows p f id (r ∷ rows) keeps =
    let same : (if p r then f r else r).id ≡ r.id = elim (Bool-cases (p r)) [
      | inl c ↦ ap (λ b. (if b then f r else r).id) c ∙ keeps r
      | inr c ↦ ap (λ b. (if b then f r else r).id) c
    ] in
    ap (λ i. if beq i id then some (if p r then f r else r) else find_row id (update_rows p f rows))
      same
    ∙ ap (λ o. if beq r.id id then some (if p r then f r else r) else o)
        (find_row-update_rows p f id rows keeps)
    ∙ under (beq r.id id)
  where
    under :
        (b : Bool)
        → Path
            (Option Job)
            (if b then some (if p r then f r else r) else when p f (find_row id rows))
            (when p f (if b then some r else find_row id rows))
    under true = refl
    under false = refl

pub find_row-id :
    (id : Bytes) (rows : Table) (row : Job) → find_row id rows ≡ some row → row.id ≡ id
unfolding find_row
find_row-id id [] row h = ground (arith, h)
find_row-id id (r ∷ rows) row h = elim (beq-cases r.id id) [
  | inl (b, e) ↦
      ap (λ o. elim o [ none ↦ row.id | some x ↦ x.id ]) (sym h)
      ∙ ap (λ t. elim (if t then some r else find_row id rows) [ none ↦ row.id | some x ↦ x.id ]) b
      ∙ e
  | inr (b, _) ↦
      find_row-id id rows row (sym (ap (λ t. if t then some r else find_row id rows) b) ∙ h)
]

find_row-update :
    (id : Bytes) (f : Job → Job) (rows : Table) (row : Job)
    → ((x : Job) → (f x).id ≡ x.id)
    → find_row id rows ≡ some row
    → find_row id (update_rows (λ x. beq x.id id) f rows) ≡ some (f row)
unfolding when
find_row-update id f rows row keeps h =
    find_row-update_rows _ f id rows keeps
    ∙ ap (when (λ x. beq x.id id) f) h
    ∙ ap (λ b. some (if b then f row else row))
        (ap (λ i. beq i id) (find_row-id id rows row h) ∙ beq_self id)

-- The row of a statement's identifier, and every other row.
pub find_row-update_status :
    (now : ℕ) (id : Bytes) (status : JobStatus) (error : Option Failure) (rows : Table) (row : Job)
    → find_row id rows ≡ some row
    → find_row id (update_status now id status error rows)
      ≡ some (record row { status = status; error = error; updated_at = now })
unfolding update_status
find_row-update_status now id status error rows row h = find_row-update id _ rows row (λ x. refl) h

pub find_row-update_discovery :
    (now : ℕ) (id path service : Bytes) (rows : Table) (row : Job)
    → find_row id rows ≡ some row
    → find_row id (update_discovery now id path service rows)
      ≡ some (record row { compose_path = some path; service = some service; updated_at = now })
unfolding update_discovery
find_row-update_discovery now id path service rows row h =
    find_row-update id _ rows row (λ x. refl) h

pub find_row-update_ne :
    (id other : Bytes) (f : Job → Job) (rows : Table)
    → ((x : Job) → (f x).id ≡ x.id)
    → other ≢ id
    → find_row other (update_rows (λ row. beq row.id id) f rows) ≡ find_row other rows
unfolding when
find_row-update_ne id other f rows keeps ne =
    find_row-update_rows _ f other rows keeps ∙ elim (Option-cases (find_row other rows)) [
      | inl h ↦ ap (when _ f) h ∙ sym h
      | inr (row, h) ↦ elim (beq-cases row.id id) [
        | inl (_, e) ↦ absurd (ne (sym (find_row-id other rows row h) ∙ e))
        | inr (b, _) ↦ ap (when _ f) h ∙ ap (λ c. some (if c then f row else row)) b ∙ sym h
      ]
    ]

pub find_row-update_status_ne :
    (now : ℕ) (id other : Bytes) (status : JobStatus) (error : Option Failure) (rows : Table)
    → other ≢ id
    → find_row other (update_status now id status error rows) ≡ find_row other rows
unfolding update_status
find_row-update_status_ne now id other status error rows ne =
    find_row-update_ne id other _ rows (λ x. refl) ne

pub find_row-update_discovery_ne :
    (now : ℕ) (id other path service : Bytes) (rows : Table)
    → other ≢ id
    → find_row other (update_discovery now id path service rows) ≡ find_row other rows
unfolding update_discovery
find_row-update_discovery_ne now id other path service rows ne =
    find_row-update_ne id other _ rows (λ x. refl) ne

-- What `insert` does when the identifier is new, and when it is not.
pub insert-find_row :
    (job : Job) (rows rows' : Table)
    → insert job rows ≡ some rows'
    → find_row job.id rows' ≡ some (to_row job)
unfolding insert
insert-find_row job rows rows' h = elim (Option-cases (find_row job.id rows)) [
  | inr (row, e) ↦ ground (arith, h, e)
  | inl e ↦
      let t : rows ++ to_row job ∷ [] ≡ rows' = ground (arith, h, e) in
      ap (find_row job.id) (sym t) ∙ find_row-append_none job.id rows (to_row job) e refl
]
