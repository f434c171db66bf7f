-- ===== src/Store/Schema/Migrated.antt =====
-- What the migration leaves.
use rollhook.Prelude.{
  Bool, true, some, List, [], ◌∷◌, ◌++◌, Result, ok, err, ◌≡◌, refl, sym, ap, ◌∙◌, arith,
  Bool-cases, inl, inr, append-nil, append_assoc, ◌⊎◌,
}
use rollhook.Text.{Bytes}
use rollhook.Text.Equality.{beq_self}
use rollhook.Store.Schema.{
  Schema, Answers, OpenError, no_compose_path, no_service, compose_path, service, has_column,
  create_table, add_column, with_service, with_compose_path, migrate,
}

has_column-append_last :
    (name : Bytes) (cols : List Bytes) → has_column name (cols ++ name ∷ []) ≡ true
unfolding has_column
has_column-append_last name [] = rw (beq_self name) refl
has_column-append_last name (c ∷ cols) = ground (arith, has_column-append_last name cols)

has_column-append :
    (name : Bytes) (cols more : List Bytes)
    → has_column name cols ≡ true
    → has_column name (cols ++ more) ≡ true
unfolding has_column
has_column-append name [] more h = ground (arith, h)
has_column-append name (c ∷ cols) more h = ground (arith, h, has_column-append name cols more)

-- What a migration that succeeds has left of the columns that it was given.
abbrev pub Completes : List Bytes → List Bytes → Type 0
Completes cols cols' =
    (has_column compose_path cols' ≡ true)
    × (has_column service cols' ≡ true)
    × ((more : List Bytes) × (cols' ≡ cols ++ more))

-- A column is there already, or it comes last.
abbrev Added : Bytes → List Bytes → List Bytes → List Bytes → Type 0
Added name read cols cols' =
    ((has_column name read ≡ true) × (cols' ≡ cols)) ⊎ (cols' ≡ cols ++ name ∷ [])

add_column-Added :
    (name : Bytes) (e : OpenError) (b : Bool) (read cols cols' : List Bytes)
    → add_column name e b read cols ≡ ok cols'
    → Added name read cols cols'
unfolding add_column
add_column-Added name e b read cols cols' h = elim (Bool-cases (has_column name read)) [
  | inl r ↦ inl (r, ground (arith, h, r))
  | inr r ↦ elim (Bool-cases b) [
    | inl t ↦ inr (ground (arith, h, r, t))
    | inr t ↦ absurd (ground (arith, h, r, t))
  ]
]

Added-has_column :
    (name : Bytes) (cols more mid cols' : List Bytes)
    → mid ≡ cols ++ more
    → Added name cols mid cols'
    → has_column name cols' ≡ true
Added-has_column name cols more mid cols' m (inl (r, e)) =
    ap (has_column name) (e ∙ m) ∙ has_column-append name cols more r
Added-has_column name cols more mid cols' m (inr e) =
    ap (has_column name) e ∙ has_column-append_last name mid

Added-keeps :
    (name other : Bytes) (cols mid cols' : List Bytes)
    → has_column other mid ≡ true
    → Added name cols mid cols'
    → has_column other cols' ≡ true
Added-keeps name other cols mid cols' h (inl (r, e)) = ap (has_column other) e ∙ h
Added-keeps name other cols mid cols' h (inr e) =
    ap (has_column other) e ∙ has_column-append other mid (name ∷ []) h

Added-extends :
    (name : Bytes) (cols mid cols' : List Bytes)
    → (more : List Bytes) × (mid ≡ cols ++ more)
    → Added name cols mid cols'
    → (more : List Bytes) × (cols' ≡ cols ++ more)
Added-extends name cols mid cols' (more, m) (inl (r, e)) = (more, e ∙ m)
Added-extends name cols mid cols' (more, m) (inr e) =
    (more ++ name ∷ [], e ∙ ap (λ x. x ++ name ∷ []) m ∙ append_assoc cols more (name ∷ []))

with_service-ok :
    (cols cols' : List Bytes) (r : Result OpenError (List Bytes))
    → with_service cols r ≡ (ok tt, some cols')
    → r ≡ ok cols'
unfolding with_service
with_service-ok cols cols' (ok c) h = ground (arith, h)
with_service-ok cols cols' (err e) h = absurd (ground (arith, h))

with_compose_path-ok :
    (a : Answers) (cols cols' : List Bytes) (r : Result OpenError (List Bytes))
    → ((mid : List Bytes) → r ≡ ok mid → Added compose_path cols cols mid)
    → with_compose_path a cols r ≡ (ok tt, some cols')
    → Completes cols cols'
unfolding with_compose_path
with_compose_path-ok a cols cols' (err e) added h = absurd (ground (arith, h))
with_compose_path-ok a cols cols' (ok mid) added h =
    let first = added mid refl in
    let second =
      add_column-Added service no_service a.add_service cols mid cols'
        (with_service-ok mid cols' _ h) in
    let extends = Added-extends compose_path cols cols mid ([], sym (append-nil cols)) first in
    (
      Added-keeps service compose_path cols mid cols'
          (Added-has_column compose_path cols [] cols mid (sym (append-nil cols)) first) second,
      Added-has_column service cols extends.0 mid cols' extends.1 second,
      Added-extends service cols mid cols' extends second,
    )

migrate-goes :
    (a : Answers) (schema : Schema)
    → a.create ≡ true
    → a.query ≡ true
    → a.scan ≡ true
    → migrate a schema
      ≡ with_compose_path a (create_table schema) (
          add_column compose_path no_compose_path a.add_compose_path
            (create_table schema)
            (create_table schema))
unfolding migrate
migrate-goes a schema c q s = rw (c, q, s) refl

migrate-Completes :
    (a : Answers) (schema : Schema) (cols : List Bytes)
    → migrate a schema ≡ (ok tt, some cols)
    → Completes (create_table schema) cols
unfolding migrate
migrate-Completes a schema cols h = elim (Bool-cases a.create) [
  | inr c ↦ absurd (ground (arith, h, c))
  | inl c ↦ elim (Bool-cases a.query) [
    | inr q ↦ absurd (ground (arith, h, c, q))
    | inl q ↦ elim (Bool-cases a.scan) [
      | inr s ↦ absurd (ground (arith, h, c, q, s))
      | inl s ↦
          with_compose_path-ok a (create_table schema) cols _
            (λ mid.
              add_column-Added compose_path no_compose_path a.add_compose_path (create_table schema)
                (create_table schema) mid)
            (sym (migrate-goes a schema c q s) ∙ h)
    ]
  ]
]

migrate_complete :
    (a : Answers) (cols : List Bytes)
    → a.create ≡ true
    → a.query ≡ true
    → a.scan ≡ true
    → has_column compose_path cols ≡ true
    → has_column service cols ≡ true
    → migrate a (some cols) ≡ (ok tt, some cols)
unfolding with_compose_path with_service create_table add_column
migrate_complete a cols c q s p v = migrate-goes a (some cols) c q s ∙ rw (p, v) refl

-- A migration that succeeds leaves a table with the columns of the Compose path and of the service,
-- and keeps the columns that the table had, in their order, in front of what it adds. A second one,
-- at the next start of the program, changes nothing: where the table can be queried it succeeds,
-- also where adding a column would fail, since it adds none.
pub migrate_twice :
    (a b : Answers) (schema : Schema) (cols : List Bytes)
    → migrate a schema ≡ (ok tt, some cols)
    → b.create ≡ true
    → b.query ≡ true
    → b.scan ≡ true
    → Completes (create_table schema) cols × (migrate b (some cols) ≡ (ok tt, some cols))
migrate_twice a b schema cols h c q s =
    let completes = migrate-Completes a schema cols h in
    (completes, migrate_complete b cols c q s completes.0 completes.1)
