-- ===== src/Executor/Keeps.antt =====
-- What a part of the executor leaves as it was in the table of jobs.
use rollhook.Prelude.{ℕ, Bool, true, false, List, Result, ok, err, if◌then◌else◌}
use rollhook.Text.{Bytes}
use rollhook.Effect.{Io, Err, Event, Line, continue, pure, fail, attempt, log, ◌>>=◌}
use rollhook.Discover.{DiscoveryResult}
use rollhook.Store.{Job, Table, update_discovery}
use rollhook.Executor.{Libraries, State, on_world, run_sql, validated, log_prune, deploy, execute}

pub record Keeps {ℓ} {W : Type 0} {A : Type ℓ} (P : Table → Type 0) (m : Io (State W) A)
    : Type ℓ where
  pub at : (s : State W) → P s.table → P (m s).2.table

module _ {ℓ} {W : Type 0} {A : Type ℓ} (P : Table → Type 0) where
  pub Keeps-pure : (a : A) → Keeps P (pure {W = State W} a)
  unfolding pure
  Keeps-pure a = record { at = λ s h. h }

  pub Keeps-fail : (e : Err) → Keeps P (fail {W = State W} {A = A} e)
  unfolding fail
  Keeps-fail e = record { at = λ s h. h }

  pub Keeps-attempt : {m : Io (State W) A} → Keeps P m → Keeps P (attempt m)
  unfolding attempt
  Keeps-attempt k = record { at = λ s h. k.at s h }

  pub Keeps-on_world : (m : Io W A) → Keeps P (on_world m)
  unfolding on_world
  Keeps-on_world m = record { at = λ s h. h }

module _ {W : Type 0} (P : Table → Type 0) where
  pub Keeps-log : (l : Line) → Keeps {W = W} P (log l)
  unfolding log
  Keeps-log l = record { at = λ s h. h }

module _ {ℓ κ} {W : Type 0} {A : Type ℓ} {B : Type κ} (P : Table → Type 0) where
  continue-keeps :
      (r : Result Err A) (f : A → Io (State W) B) (es : List Event) (s : State W)
      → ((a : A) → Keeps P (f a))
      → P s.table
      → P (continue r f es s).2.table
  continue-keeps (ok a) f es s k h = (k a).at s h
  continue-keeps (err e) f es s k h = h

  pub Keeps-then :
      (m : Io (State W) A) (f : A → Io (State W) B)
      → Keeps P m
      → ((a : A) → Keeps P (f a))
      → Keeps P (m >>= f)
  unfolding ◌>>=◌
  Keeps-then m f km kf = record {
    at = λ s h. continue-keeps (m s).0 f (m s).1 (m s).2 kf (km.at s h);
  }

pub ruleset keeps_rules =
    (Keeps-pure, Keeps-fail, Keeps-attempt, Keeps-on_world, Keeps-log, Keeps-then)

module _ {W : Type 0} (lib : Libraries W) (P : Table → Type 0) where
  pub Keeps-run_sql :
      (f : ℕ → Table → Table)
      → ((now : ℕ) (t : Table) → P t → P (f now t))
      → Keeps P (run_sql lib f)
  unfolding run_sql
  Keeps-run_sql f k = record { at = λ s h. by_cases (lib.exec s.world).0 s h _ }
    where
      by_cases :
          (b : Bool) (s : State W)
          → P s.table
          → (now : ℕ) → P (if b then f now s.table else s.table)
      by_cases true s h now = k now s.table h
      by_cases false s h now = h

  validated-Keeps : (r : Result Err (Unit {0})) → Keeps P (validated lib r)
  unfolding validated
  validated-Keeps (ok _) = Keeps-pure P tt
  validated-Keeps (err e) = Keeps-then P _ _ (Keeps-log P _) λ _. Keeps-fail P e

  log_prune-Keeps : (r : Result Err (Unit {0})) → Keeps P (log_prune lib r)
  unfolding log_prune
  log_prune-Keeps (ok _) = Keeps-pure P tt
  log_prune-Keeps (err e) = Keeps-log P _

  deploy-Keeps :
      (secret : Bytes) (job : Job) (result : DiscoveryResult)
      → Keeps P (deploy lib secret job result)
  unfolding deploy
  deploy-Keeps secret job result = Keeps-then P _ _ (Keeps-attempt P (Keeps-on_world P _)) λ a.
      Keeps-then P _ _ (validated-Keeps a) λ _. Keeps-then P _ _ (Keeps-log P _) λ _.
        Keeps-then P _ _ (Keeps-on_world P _) λ _.
          Keeps-then P _ _ (Keeps-on_world P _)
            λ _. Keeps-then P _ _ (Keeps-attempt P (Keeps-on_world P _)) log_prune-Keeps

  pub execute-Keeps :
      (secret : Bytes) (job : Job)
      → ((now : ℕ) (path service : Bytes) (t : Table)
          → P t
          → P (update_discovery now job.id path service t))
      → Keeps P (execute lib secret job)
  unfolding execute
  execute-Keeps secret job k = Keeps-then P _ _ (Keeps-on_world P _) λ result.
      Keeps-then P _ _ (Keeps-run_sql _ (λ now t. k now result.compose_path result.service t))
        λ _. Keeps-then P _ _ (Keeps-log P _) λ _. deploy-Keeps secret job result
