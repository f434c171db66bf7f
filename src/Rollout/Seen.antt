-- ===== src/Rollout/Seen.antt =====
-- What a wait for health that succeeds has seen.
use rollhook.Prelude.{
  ℕ, zero, suc, Bool, Option, none, some, List, [], ◌∷◌, Result, ok, err, ℤ, arith, ◌≡◌, ap, ◌∙◌,
  ◌⊎◌, inl, inr,
}
use rollhook.Text.{Bytes, codes}
use rollhook.Text.Equality.{beq-cases}
use rollhook.Effect.Makes.{Occurs, Occurs-append_right, Occurs-bind_left, Occurs-bind_right}
use rollhook.Effect.{inspected, paused, Event, Io, Err, attempt, ◌>>=◌}
use rollhook.Effect.Invert.{>>=-eq_ok, pure-eq_ok, fail-ne_ok, attempt-eq_ok}
use rollhook.Docker.{Docker, Inspect, inspect_container}
use rollhook.Host.{Host, now, pause}
use rollhook.Rollout.{
  health_duration, verdict, inspection, progress, health_round, health_loop, health_rounds,
  wait_healthy, poll_interval_ms,
}
use rollhook.Rollout.Health.{loop-step}

module _ {W : Type 0} (cli : Docker W) (host : Host W) where
  -- An inspection of this container answered "healthy".
  abbrev pub SeenHealthy : List Event → Bytes → Type 0
  SeenHealthy es id = Occurs (inspected id (some (codes "healthy"))) es

  verdict-ok :
      (h : Option Bytes) (id : Bytes) (again : Io W (Unit {0})) (w : W)
      → (verdict cli host h id again w).0 ≡ ok tt
      → (h ≡ some (codes "healthy"))
        ⊎ ((w' : W) × ((again w').0 ≡ ok tt)
            × ((verdict cli host h id again w).1 ≡ paused poll_interval_ms ∷ (again w').1))
  unfolding verdict ◌>>=◌ pause
  verdict-ok none id again w h = cc
  verdict-ok (some s) id again w h = elim (beq-cases s (codes "healthy")) [
    | inl (_, e) ↦ inl (ap some e)
    | inr (e, _) ↦ inr ((host.sleep poll_interval_ms w).1, ground arith, ground arith)
  ]

  inspection-ok :
      (r : Result Err Inspect) (w : W) {i : Inspect} → (inspection cli host r w).0 ≡ ok i → r ≡ ok i
  unfolding inspection
  inspection-ok (ok j) w {i} h = ap ok (pure-eq_ok j i w h)
  inspection-ok (err e) w {i} h = absurd (fail-ne_ok _ i w h)

  inspected-event :
      (id : Bytes) (w : W) {i : Inspect}
      → (inspect_container cli id w).0 ≡ ok i
      → (attempt (inspect_container cli id) w).1 ≡ inspected id i.health ∷ []
  unfolding inspect_container ◌>>=◌
  inspected-event id w h = ground arith

  round-ok :
      (due : Bool) (id : Bytes) (again : Io W (Unit {0})) (w : W)
      → ((w' : W) → (again w').0 ≡ ok tt → SeenHealthy (again w').1 id)
      → (health_round cli host due id again w).0 ≡ ok tt
      → SeenHealthy (health_round cli host due id again w).1 id
  unfolding health_round
  round-ok due id again w ih h =
      let (u, e1, h1) = >>=-eq_ok (progress cli host due id) _ w h in
      let w1 = (progress cli host due id w).2 in
      let (answer, e2, h2) = >>=-eq_ok (attempt (inspect_container cli id)) _ w1 h1 in
      let w2 = (attempt (inspect_container cli id) w1).2 in
      let (i, e3, h3) = >>=-eq_ok (inspection cli host answer) _ w2 h2 in
      let asked = attempt-eq_ok _ w1 answer e2 ∙ inspection-ok answer w2 e3 in
      Occurs-bind_right _ _ _ w u e1 (elim (verdict-ok i.health id again _ h3) [
        | inl e ↦
            Occurs-bind_left _ _ _ w1 answer e2
              ([], [], inspected-event id w1 asked ∙ ap (λ x. inspected id x ∷ []) e)
        | inr (w', more, es) ↦ Occurs-bind_right _ _ _ w1 answer e2 (
            Occurs-bind_right _ _ _ w2 i e3
              (rw es (Occurs-append_right _ (paused poll_interval_ms ∷ []) _ (ih w' more))))
      ])

  health_loop-ok :
      (fuel : ℕ) (id : Bytes) (timeout : ℤ) (start last : ℕ) (w : W)
      → (health_loop cli host fuel id timeout start last w).0 ≡ ok tt
      → SeenHealthy (health_loop cli host fuel id timeout start last w).1 id
  unfolding health_loop ◌>>=◌
  health_loop-ok zero id timeout start last w h = absurd (ground arith)
  health_loop-ok (suc fuel) id timeout start last w h =
      let (_, last', round, es) = loop-step cli host fuel id timeout start last w _ (λ k. cc) h in
      rw es
        (round-ok _ id _ w (λ w' more. health_loop-ok fuel id timeout start last' w' more) round)

  -- When the wait for health returns with no error, one of its inspections of this container
  -- answered "healthy".
  pub wait_healthy-ok :
      (id : Bytes) (timeout : ℤ) (w : W)
      → (wait_healthy cli host id timeout w).0 ≡ ok tt
      → SeenHealthy (wait_healthy cli host id timeout w).1 id
  unfolding wait_healthy
  wait_healthy-ok id timeout w h =
      let (start, e, h1) = >>=-eq_ok (now host) _ w h in
      Occurs-bind_right _ _ _ w start e (
        health_loop-ok (health_rounds cli host (health_duration timeout)) id timeout start start _
          h1)
