-- ===== src/Store/Schema.antt =====
-- internal/db/client.go: `Open` and `migrate`. Of the database only the columns of the table of
-- jobs are kept; which of the calls succeed is given.
pub mod Migrated
pub mod Tests
use rollhook.Prelude.{
  Bool, true, false, not, ◌||◌, Option, none, some, List, [], ◌∷◌, ◌++◌, Result, ok, err,
  if◌then◌else◌,
}
use rollhook.Text.{Bytes, codes, beq}

-- The columns of the table, in order; `none` is that there is no table.
abbrev pub Schema : Type 0
Schema = Option (List Bytes)

-- Whether each call succeeds, were it made; `make_dir` is that of both directories.
pub record Answers : Type 0 where
  pub make_dir : Bool
  pub opened : Bool
  pub journal_mode : Bool
  pub busy_timeout : Bool
  pub create : Bool
  pub query : Bool
  pub scan : Bool
  pub add_compose_path : Bool
  pub add_service : Bool
  pub ping : Bool

pub data OpenError : Type 0 where
  no_dir not_opened no_wal no_timeout no_ping : OpenError
  no_table no_info no_scan no_compose_path no_service : OpenError

abbrev pub compose_path : Bytes
compose_path = codes "compose_path"

abbrev pub service : Bytes
service = codes "service"

-- The columns of `CREATE TABLE`.
abbrev pub job_columns : List Bytes
job_columns =
    codes "id"
    ∷ codes "app"
    ∷ codes "status"
    ∷ codes "image_tag"
    ∷ compose_path
    ∷ service
    ∷ codes "error"
    ∷ codes "created_at"
    ∷ codes "updated_at"
    ∷ []

-- `cols[name]`
pub has_column : Bytes → List Bytes → Bool
has_column name [] = false
has_column name (c ∷ cols) = beq c name || has_column name cols

-- `CREATE TABLE IF NOT EXISTS`
pub create_table : Schema → List Bytes
create_table none = job_columns
create_table (some cols) = cols

-- `if !cols[name] { ALTER TABLE jobs ADD COLUMN … }`; the third argument is whether the statement
-- succeeds, the fourth what has been read from the table before.
pub add_column : Bytes → OpenError → Bool → List Bytes → List Bytes → Result OpenError (List Bytes)
unfolding has_column
add_column name e succeeds read cols =
    if has_column name read then ok cols else if succeeds then ok (cols ++ name ∷ []) else err e

pub with_service : List Bytes → Result OpenError (List Bytes) → Result OpenError (Unit {0}) × Schema
with_service cols (ok cols') = (ok tt, some cols')
with_service cols (err e) = (err e, some cols)

pub with_compose_path :
    Answers → List Bytes → Result OpenError (List Bytes) → Result OpenError (Unit {0}) × Schema
unfolding add_column with_service
with_compose_path a cols (err e) = (err e, some cols)
with_compose_path a cols (ok cols') =
    with_service cols' (add_column service no_service a.add_service cols cols')

-- `migrate`
pub migrate : Answers → Schema → Result OpenError (Unit {0}) × Schema
unfolding create_table with_compose_path
migrate a schema =
    let cols = create_table schema in
    if not a.create
    then (err no_table, schema)
    else if not a.query
    then (err no_info, some cols)
    else if not a.scan
    then (err no_scan, some cols)
    else with_compose_path a cols
        (add_column compose_path no_compose_path a.add_compose_path cols cols)

-- `Open`: the answer, the columns, and whether the database is left open.
pub opened_database :
    Answers → Result OpenError (Unit {0}) × Schema → Result OpenError (Unit {0}) × Schema × Bool
opened_database a (err e, schema) = (err e, schema, false)
opened_database a (ok _, schema) =
    if a.ping then (ok tt, schema, true) else (err no_ping, schema, false)

pub open_database : Answers → Schema → Result OpenError (Unit {0}) × Schema × Bool
unfolding migrate opened_database
open_database a schema =
    if not a.make_dir
    then (err no_dir, schema, false)
    else if not a.opened
    then (err not_opened, schema, false)
    else if not a.journal_mode
    then (err no_wal, schema, true)
    else if not a.busy_timeout
    then (err no_timeout, schema, true)
    else opened_database a (migrate a schema)
