-- ===== src/Registry/Start/Ready.antt =====
-- That `waitUntilReady` ends, and what a success means.
use rollhook.Prelude.{
  ℕ, zero, suc, ◌+◌, ◌*◌, ◌≤◌, ◌<◌, Bool, true, false, Option, none, some, List, [], ◌∷◌, ◌++◌,
  ◌==◌, ltb, length, if◌then◌else◌, ◌≡◌, ◌≢◌, refl, ap, arith, ◌⊎◌, inl, inr, Bool-cases,
}
use rollhook.Text.{Bytes}
use rollhook.Registry.Config.{generate_htpasswd}
use rollhook.Registry.Start.{
  ready, rounds_exceeded, ready_timeout_ms, poll_interval_ms, is_up, Machine, no_registry_dir,
  no_config, no_password, no_htpasswd, no_process, Started, start_error, waited, ready_loop,
  wait_until_ready, with_htpasswd, start,
}

module _ {W : Type 0} (m : Machine W) where
  -- A request does not turn the clock back, and a pause that is not cut short takes its time.
  pub record ClockLaws : Type 0 where
    pub get_keeps : (w : W) → m.host.clock w ≤ m.host.clock (m.get w).1
    pub sleep_takes :
        (ms : ℕ) (w : W)
        → (m.host.sleep ms w).0 ≡ false
        → m.host.clock w + ms ≤ m.host.clock (m.host.sleep ms w).1

  ready_loop-fuel :
      (fuel deadline : ℕ) (w : W)
      → ClockLaws
      → deadline ≤ m.host.clock w + poll_interval_ms * fuel
      → (ready_loop m (suc fuel) deadline w).0 ≢ rounds_exceeded
  unfolding ready_loop
  ready_loop-fuel zero deadline w laws h e = elim (Bool-cases (ltb (m.host.clock w) deadline)) [
    | inr late ↦ ground (arith, e, late)
    | inl early ↦ absurd (ground (arith, early))
  ]
  ready_loop-fuel (suc fuel) deadline w laws h e =
      elim (Bool-cases (ltb (m.host.clock w) deadline)) [
        | inr late ↦ ground (arith, e, late)
        | inl early ↦ elim (Bool-cases (is_up (m.get w).0)) [
          | inl up ↦ ground (arith, e, early, up)
          | inr down ↦ elim (Bool-cases (m.host.sleep poll_interval_ms (m.get w).1).0) [
            | inl done ↦ ground (arith, e, early, down, done)
            | inr goes ↦
                ready_loop-fuel fuel deadline (m.host.sleep poll_interval_ms (m.get w).1).1 laws
                  (ground
                    (arith, laws.get_keeps w, laws.sleep_takes poll_interval_ms (m.get w).1 goes))
                  (ground (arith, e, early, down, goes))
          ]
        ]
      ]

  -- The wait for the registry ends by its own tests, an answer, the end of the context or the
  -- deadline of ten seconds: the bound on its rounds, which is the model's, is never met.
  -- `ClockLaws` says that a request does not turn the clock back and that a pause that is not cut
  -- short takes its time.
  pub wait_until_ready-terminates : (w : W) → ClockLaws → (wait_until_ready m w).0 ≢ rounds_exceeded
  unfolding wait_until_ready
  wait_until_ready-terminates w laws =
      ready_loop-fuel 51 (m.host.clock w + ready_timeout_ms) w laws (omega arith)

  -- The answers end with one that makes the registry ready.
  abbrev pub EndsUp : List (Option ℕ) → Type 0
  EndsUp answers =
      (front : List (Option ℕ)) × (status : ℕ) × (answers ≡ front ++ some status ∷ [])
      × ((status ≡ 200) ⊎ (status ≡ 401))

  is_up-status : (answer : Option ℕ) → is_up answer ≡ true → EndsUp (answer ∷ [])
  unfolding is_up
  is_up-status none h = absurd (ground (arith, h))
  is_up-status (some s) h = elim (Bool-cases (s == 200)) [
    | inl e ↦ ([], s, refl, inl (ground (arith, e)))
    | inr e ↦ ([], s, refl, inr (ground (arith, e, h)))
  ]

  EndsUp-∷ :
      (answer : Option ℕ) (answers : List (Option ℕ)) → EndsUp answers → EndsUp (answer ∷ answers)
  EndsUp-∷ answer answers (front, s, e, up) = (answer ∷ front, s, ap (λ l. answer ∷ l) e, up)

  ready_loop-ready :
      (fuel deadline : ℕ) (w : W)
      → (ready_loop m fuel deadline w).0 ≡ ready
      → EndsUp (ready_loop m fuel deadline w).1
  unfolding ready_loop
  ready_loop-ready zero deadline w e = absurd (ground (arith, e))
  ready_loop-ready (suc fuel) deadline w e = elim (Bool-cases (ltb (m.host.clock w) deadline)) [
    | inr late ↦ absurd (ground (arith, e, late))
    | inl early ↦ elim (Bool-cases (is_up (m.get w).0)) [
      | inl up ↦ rw (early, up) (is_up-status (m.get w).0 up)
      | inr down ↦ elim (Bool-cases (m.host.sleep poll_interval_ms (m.get w).1).0) [
        | inl done ↦ absurd (ground (arith, e, early, down, done))
        | inr goes ↦
            rw (early, down, goes)
              (EndsUp-∷ _ _ (
                ready_loop-ready fuel deadline (m.host.sleep poll_interval_ms (m.get w).1).1
                  (ground (arith, e, early, down, goes))))
      ]
    ]
  ]

  -- The law of `bcrypt.GenerateFromPassword`: it refuses a password of more than 72 bytes.
  pub record BcryptLaw : Type 0 where
    pub refuses : (password : Bytes) → 72 < length password → m.bcrypt password ≡ none

  -- An error from before anything but the configuration is written.
  abbrev pub IsEarly : Started → Type 0
  IsEarly (start_error no_registry_dir) = Unit
  IsEarly (start_error no_config) = Unit
  IsEarly (start_error no_password) = Unit
  IsEarly (start_error no_htpasswd) = ⊥
  IsEarly (start_error no_process) = ⊥
  IsEarly (waited r) = ⊥

  no_password-IsEarly :
      (line : Option Bytes) (w : W) → line ≡ none → IsEarly (with_htpasswd m line w).0
  unfolding with_htpasswd
  no_password-IsEarly none w e = tt
  no_password-IsEarly (some l) w e = absurd (ground (arith, e))

  branches-IsEarly :
      (made written : Bool) (line : Option Bytes) (w1 w2 : W)
      → line ≡ none
      → IsEarly
          (if made
            then (if written then with_htpasswd m line w2 else (start_error no_config, w2))
            else (start_error no_registry_dir, w1)).0
  branches-IsEarly false written line w1 w2 e = tt
  branches-IsEarly true false line w1 w2 e = tt
  branches-IsEarly true true line w1 w2 e = no_password-IsEarly line w2 e

  no_line :
      (password : Bytes) → m.bcrypt password ≡ none → generate_htpasswd m.bcrypt password ≡ none
  unfolding generate_htpasswd
  no_line password e = rw (e, generate_htpasswd) refl

  -- With a secret of more than 72 bytes `Start` fails, at the latest with the password file and
  -- before a process is started, whatever the file system does: `BcryptLaw` says that such
  -- passwords are refused.
  pub start-IsEarly :
      (data_dir secret : Bytes) (w : W)
      → BcryptLaw
      → 72 < length secret
      → IsEarly (start m data_dir secret w).0
  unfolding start
  start-IsEarly data_dir secret w law long =
      branches-IsEarly (m.make_dir w).0 _ _ _ _ (no_line secret (law.refuses secret long))
