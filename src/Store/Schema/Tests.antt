-- ===== src/Store/Schema/Tests.antt =====
-- The migration of an old database, and the theorem at it.
use rollhook.Prelude.{true, false, some, List, [], ◌∷◌, ok, ◌≡◌, refl}
use rollhook.Text.{Bytes, codes, beq}
use rollhook.Store.Schema.{
  Answers, migrate, with_compose_path, with_service, add_column, has_column, create_table,
}
use rollhook.Store.Schema.Migrated.{Completes, migrate_twice}

-- A table from before the Compose path and the service were kept.
abbrev old_columns : List Bytes
old_columns = codes "id" ∷ codes "app" ∷ []

abbrev all_well : Answers
all_well = record {
  make_dir = true;
  opened = true;
  journal_mode = true;
  busy_timeout = true;
  create = true;
  query = true;
  scan = true;
  add_compose_path = true;
  add_service = true;
  ping = true;
}

abbrev new_columns : List Bytes
new_columns = codes "id" ∷ codes "app" ∷ codes "compose_path" ∷ codes "service" ∷ []

migrated : migrate all_well (some old_columns) ≡ (ok tt, some new_columns)
unfolding migrate with_compose_path with_service add_column has_column create_table beq
migrated = refl

migrate_twice_example :
    Completes (create_table (some old_columns)) new_columns
    × (migrate (record all_well { add_service = false }) (some new_columns)
        ≡ (ok tt, some new_columns))
migrate_twice_example =
    migrate_twice all_well (record all_well { add_service = false }) (some old_columns) new_columns
      migrated refl refl refl
