-- ===== src/Main.antt =====
-- cmd/rollhook/main.go: the start of the program up to its HTTP server, the path of a dashboard
-- page; the shutdown is in a child module.
pub mod Startup
pub mod Shutdown
pub mod Tests
use rollhook.Prelude.{
  ℕ, ◌*◌, ◌/◌, Bool, true, false, not, Option, none, some, Result, ok, err, List, [], ◌∷◌, ◌++◌,
  if◌then◌else◌, ltb, length, pos,
}
use rollhook.Text.{Bytes, codes, beq, contains, cut_prefix}
use rollhook.Host.{env_nat}
use rollhook.Store.{Table, mark_interrupted_jobs_failed}
use rollhook.Store.Schema.{OpenError}
use rollhook.Store.Logs.{DirRead, entries, Entry, prune_logs}
use rollhook.Registry.Start.{StartError, Readiness, ready, Started, start_error, waited}

-- What `log.Fatal` ends the start with.
pub data Fatal : Type 0 where
  short_secret no_docker_client : Fatal
  no_registry : StartError → Fatal
  registry_not_ready : Readiness → Fatal
  no_database : OpenError → Fatal

-- `mgr.Start(ctx)` fails unless the registry has become ready.
pub registry_failure : Started → Option Fatal
registry_failure (start_error e) = some (no_registry e)
registry_failure (waited ready) = none
registry_failure (waited r) = some (registry_not_ready r)

-- What is left in the logs' directory after a sweep.
pub swept : DirRead → Option (Result (Unit {0}) (ℕ × List Entry)) → DirRead
swept dir none = dir
swept dir (some (err _)) = dir
swept dir (some (ok (_, left))) = entries left

-- `pruneLogs` with the value of ROLLHOOK_LOG_RETENTION_DAYS, at a time in nanoseconds.
pub sweep_logs : Bytes → ℕ → DirRead → DirRead
unfolding swept
sweep_logs retention now dir = swept dir (prune_logs (pos (env_nat retention 30)) now dir)

-- What the start is given: the secret, the answers of `mgr.Start` and `db.Open`, whether the
-- statement of the clean-up succeeds and there is a client of Docker, the value of the retention
-- and the time in nanoseconds.
pub record Machine : Type 0 where
  pub secret : Bytes
  pub registry : Started
  pub database : Result OpenError (Unit {0})
  pub cleaned : Bool
  pub docker : Bool
  pub retention : Bytes
  pub now : ℕ

abbrev pub second : ℕ
second = 1000000000

-- Behind the registry: the table of jobs and the logs' directory, as the program has left them when
-- it ends or serves.
pub open_state :
    Machine
    → Result OpenError (Unit {0})
    → Table × DirRead
    → Result Fatal (Unit {0}) × Table × DirRead
unfolding sweep_logs
open_state m (err e) (table, logs) = (err (no_database e), table, logs)
open_state m (ok _) (table, logs) = (
  if m.docker then ok tt else err no_docker_client,
  if m.cleaned then mark_interrupted_jobs_failed (m.now / second) table else table,
  sweep_logs m.retention m.now logs,
)

pub with_registry :
    Machine → Option Fatal → Table × DirRead → Result Fatal (Unit {0}) × Table × DirRead
unfolding open_state
with_registry m (some e) (table, logs) = (err e, table, logs)
with_registry m none state = open_state m m.database state

-- `main` up to the routes.
pub startup : Machine → Table × DirRead → Result Fatal (Unit {0}) × Table × DirRead
unfolding with_registry registry_failure
startup m state =
    if ltb (length m.secret) 7
    then (err short_secret, state.0, state.1)
    else with_registry m (registry_failure m.registry) state

-- The path that the file server is asked for: a file that exists, else the dashboard's page.
pub dashboard_path : (Bytes → Bool) → Bytes → Bytes
dashboard_path exists path =
    if not (contains (codes ".") path)
    then codes "/"
    else if exists (elim (cut_prefix (codes "/") path) [ none ↦ path | some rest ↦ rest ])
    then path
    else codes "/"
