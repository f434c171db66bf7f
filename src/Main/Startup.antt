-- ===== src/Main/Startup.antt =====
-- What holds when the program begins to serve.
use rollhook.Prelude.{
  ◌≤◌, ◌/◌, true, Option, none, some, Result, ok, err, ltb, length, ◌≡◌, ◌≢◌, refl, arith,
  Bool-cases, inl, inr, All, sym, ap, subst, ◌∙◌,
}
use rollhook.Text.{Bytes}
use rollhook.Store.{status_running, Table}
use rollhook.Store.Found.{mark_interrupted_jobs_failed-none_running}
use rollhook.Store.Schema.{OpenError}
use rollhook.Store.Logs.{DirRead}
use rollhook.Registry.Start
use rollhook.Registry.Start.{
  Readiness, ready, cancelled, not_started, rounds_exceeded, Started, start_error, waited, start,
}
use rollhook.Registry.Start.Ready.{BcryptLaw, IsEarly, start-IsEarly}
use rollhook.Main.{Fatal, registry_failure, Machine, second, open_state, with_registry, startup}

-- The program serves, and what it has then.
abbrev pub Serves : Machine → Table → Type 0
Serves m table =
    (7 ≤ length m.secret)
    × (length m.secret ≤ 72)
    × (m.registry ≡ waited ready)
    × (m.database ≡ ok tt)
    × All (λ row. row.status ≢ status_running) table

registry_failure-none : (s : Started) → registry_failure s ≡ none → s ≡ waited ready
unfolding registry_failure
registry_failure-none (start_error e) h = absurd (ground (arith, h))
registry_failure-none (waited ready) h = refl
registry_failure-none (waited cancelled) h = absurd (ground (arith, h))
registry_failure-none (waited not_started) h = absurd (ground (arith, h))
registry_failure-none (waited rounds_exceeded) h = absurd (ground (arith, h))

open_state-ok :
    (m : Machine) (database : Result OpenError (Unit {0})) (table : Table) (logs : DirRead)
    → m.cleaned ≡ true
    → (open_state m database (table, logs)).0 ≡ ok tt
    → (database ≡ ok tt)
      × All (λ row. row.status ≢ status_running) (open_state m database (table, logs)).1
unfolding open_state
open_state-ok m (err e) table logs c h = absurd (ground (arith, h))
open_state-ok m (ok u) table logs c h =
    (refl, rw c (mark_interrupted_jobs_failed-none_running (m.now / second) table))

with_registry-ok :
    (m : Machine) (failure : Option Fatal) (table : Table) (logs : DirRead)
    → m.cleaned ≡ true
    → (with_registry m failure (table, logs)).0 ≡ ok tt
    → (failure ≡ none)
      × (m.database ≡ ok tt)
      × All (λ row. row.status ≢ status_running) (with_registry m failure (table, logs)).1
unfolding with_registry
with_registry-ok m (some e) table logs c h = absurd (ground (arith, h))
with_registry-ok m none table logs c h =
    let (d, none_running) = open_state-ok m m.database table logs c h in (refl, d, none_running)

module _ {W : Type 0} (machine : Start.Machine W) where
  not_early : (s : Started) → IsEarly machine s → s ≢ waited ready
  not_early (waited r) h e = elim h [ ]
  not_early (start_error e) h p = ground (arith, p)

  -- `startup` behind the check of the secret's length.
  startup-long :
      (m : Machine) (state : Table × DirRead)
      → (startup m state).0 ≡ ok tt
      → (7 ≤ length m.secret)
        × (startup m state ≡ with_registry m (registry_failure m.registry) state)
  unfolding startup
  startup-long m state h = elim (Bool-cases (ltb (length m.secret) 7)) [
    | inl b ↦ absurd (ground (arith, h, b))
    | inr b ↦ (ground (arith, b), rw b refl)
  ]

  short_enough :
      (data_dir secret : Bytes) (w : W)
      → BcryptLaw machine
      → (start machine data_dir secret w).0 ≡ waited ready
      → length secret ≤ 72
  short_enough data_dir secret w law e = elim (Bool-cases (ltb 72 (length secret))) [
    | inr b ↦ ground (arith, b)
    | inl b ↦
        absurd (not_early _ (start-IsEarly machine data_dir secret w law (ground (arith, b))) e)
  ]

  -- When the program begins to serve, and the statement of the clean-up has succeeded: its secret
  -- has 7 to 72 bytes, the registry has answered and the database is open, and no job is running in
  -- the table. The registry's answer is that of `Start` with this secret; `BcryptLaw` says that
  -- longer passwords are refused.
  pub startup-Serves :
      (data_dir : Bytes) (w : W) (m : Machine) (table : Table) (logs : DirRead)
      → BcryptLaw machine
      → m.registry ≡ (start machine data_dir m.secret w).0
      → m.cleaned ≡ true
      → (startup m (table, logs)).0 ≡ ok tt
      → Serves m (startup m (table, logs)).1
  startup-Serves data_dir w m table logs law registry cleaned h =
      let (long, same) = startup-long m (table, logs) h in
      let (up, opened, idle) =
        with_registry-ok m (registry_failure m.registry) table logs cleaned
          (ap (λ x. x.0) (sym same) ∙ h) in
      let is_ready = registry_failure-none m.registry up in
      (
        long,
        short_enough data_dir m.secret w law (sym registry ∙ is_ready),
        is_ready,
        opened,
        subst (λ x. All (λ row. row.status ≢ status_running) x.1) (sym same) idle,
      )
