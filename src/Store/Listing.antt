-- ===== src/Store/Listing.antt =====
-- What `List` answers.
use rollhook.Prelude.{
  ℕ, zero, suc, ◌≤◌, Bool, true, [], ◌∷◌, arith, ◌≡◌, refl, ◌∙◌, All, map, take, select, length, ℤ,
  not,
}
use rollhook.Text.{Bytes}
use rollhook.Store.{Job, Table, scan_job, list, list_limit, matches}

-- The law of `ORDER BY`: for every test as many rows pass it as before.
abbrev pub Reorders : (Table → Table) → Type 0
Reorders order =
    (p : Job → Bool) (rows : Table) → length (select p (order rows)) ≡ length (select p rows)

each_passes :
    (p : Job → Bool) (rows : Table)
    → length (select (λ x. not (p x)) rows) ≡ 0
    → All (λ x. p x ≡ true) rows
each_passes p [] h = tt
each_passes p (x ∷ rows) h = ground (arith, each_passes p rows)

select_twice :
    (p : Job → Bool) (rows : Table) → length (select (λ x. not (p x)) (select p rows)) ≡ 0
select_twice p [] = refl
select_twice p (x ∷ rows) = ground (arith, select_twice p rows)

All-take : (P : Job → Type 0) (n : ℕ) (rows : Table) → All P rows → All P (take n rows)
All-take P zero rows h = tt
All-take P (suc n) [] h = tt
All-take P (suc n) (x ∷ rows) h = (h.0, All-take P n rows h.1)

All-scan :
    (app status : Bytes) (rows : Table)
    → All (λ x. matches app status x ≡ true) rows
    → All (λ x. matches app status x ≡ true) (map scan_job rows)
unfolding matches
All-scan app status [] h = tt
All-scan app status (x ∷ rows) h = (h.0, All-scan app status rows h.1)

length-take : (n : ℕ) (rows : Table) → length (map scan_job (take n rows)) ≤ n
length-take zero rows = omega arith
length-take (suc n) [] = omega arith
length-take (suc n) (x ∷ rows) = omega (arith, length-take n rows)

-- Every job that `List` answers passes the filters that are not empty, and there are at most
-- `limit` of them, or 50 for a limit that is not positive; `Reorders` says that `ORDER BY` loses
-- and adds no row.
pub list-matches :
    (order : Table → Table) (app status : Bytes) (limit : ℤ) (rows : Table)
    → Reorders order
    → All (λ job. matches app status job ≡ true) (list order app status limit rows)
      × (length (list order app status limit rows) ≤ list_limit limit)
unfolding list
list-matches order app status limit rows reorders = (
  All-scan app status _ (
      All-take _ (list_limit limit) _ (
        each_passes (matches app status) _
          (reorders (λ x. not (matches app status x)) _ ∙ select_twice (matches app status) rows))),
  length-take (list_limit limit) _,
)
