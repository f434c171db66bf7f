-- ===== src/Rollout/Health.antt =====
-- `waitHealthy`: that it ends.
use rollhook.Prelude.{
  ℕ, zero, suc, ◌+◌, ◌*◌, ◌/◌, ◌≤◌, ◌<◌, Bool, true, false, [], Result, err, ℤ, pos, negsuc, arith,
  ◌≡◌, ◌≢◌, refl, sym, ap, ◌∙◌, inl, inr, Bool-cases, leb, if◌then◌else◌, int64-large,
}
use rollhook.Text.{Bytes}
use rollhook.Effect.{Io, Err, out_of_fuel, health_timeout, fail, ◌>>=◌}
use rollhook.Image.{short_id}
use rollhook.Docker.{Docker, inspect_container}
use rollhook.Host.{Host, now, pause}
use rollhook.Rollout.{
  health_duration, past_deadline, health_round, health_loop, health_rounds, wait_healthy,
  poll_interval_ms,
}

module _ {W : Type 0} (cli : Docker W) (host : Host W) where
  -- The laws of the clock that the loop relies on: an inspection takes no negative time, and a
  -- pause that is not interrupted takes at least its time (`time.After`).
  pub record ClockLaws : Type 0 where
    pub inspect_keeps :
        (id : Bytes) (w : W) → host.clock w ≤ host.clock (cli.container_inspect id w).1
    pub sleep_takes :
        (ms : ℕ) (w : W)
        → (host.sleep ms w).0 ≡ false
        → host.clock w + ms ≤ host.clock (host.sleep ms w).1

  round-fuel :
      (due : Bool) (id : Bytes) (again : Io W (Unit {0})) (w : W)
      → ClockLaws
      → (health_round cli host due id again w).0 ≡ err out_of_fuel
      → (w' : W) × (host.clock w + poll_interval_ms ≤ host.clock w')
        × ((again w').0 ≡ err out_of_fuel)
  unfolding health_round ◌>>=◌ pause inspect_container
  round-fuel due id again w laws e =
      let inspected = (cli.container_inspect id w).1 in
      (
        (host.sleep poll_interval_ms inspected).1,
        ground (arith, laws.inspect_keeps id w, laws.sleep_takes poll_interval_ms inspected),
        ground arith,
      )

  -- A loop that makes a round, whatever comes of it, has not met its deadline.
  pub loop-step :
      (fuel : ℕ) (id : Bytes) (timeout : ℤ) (start last : ℕ) (w : W) (r : Result Err (Unit {0}))
      → r ≢ err (health_timeout (short_id id) timeout)
      → (health_loop cli host (suc fuel) id timeout start last w).0 ≡ r
      → (past_deadline (health_duration timeout) start (host.clock w) ≡ false)
        × (last' : ℕ) × ((health_round cli host
              (leb (last + 10000) (host.clock w))
              id
              (health_loop cli host fuel id timeout start last')
              w).0
            ≡ r)
        × ((health_loop cli host (suc fuel) id timeout start last w).1
            ≡ (health_round cli host
                (leb (last + 10000) (host.clock w))
                id
                (health_loop cli host fuel id timeout start last')
                w).1)
  unfolding health_loop ◌>>=◌ now
  loop-step fuel id timeout start last w r ne e =
      elim (Bool-cases (past_deadline (health_duration timeout) start (host.clock w))) [
        | inl p ↦ absurd (ne (ground arith))
        | inr p ↦ (
          p,
          (if leb (last + 10000) (host.clock w) then host.clock w else last),
          ground arith,
          ground arith,
        )
      ]

  -- While the deadline has not passed at the last of the rounds, the loop does not run out of them.
  health_loop-fuel :
      (fuel : ℕ) (id : Bytes) (timeout : ℤ) (duration start last : ℕ) (w : W)
      → ClockLaws
      → health_duration timeout ≡ pos duration
      → start * 1000000 + duration < (host.clock w + poll_interval_ms * fuel) * 1000000
      → (health_loop cli host (suc fuel) id timeout start last w).0 ≢ err out_of_fuel
  unfolding past_deadline
  health_loop-fuel zero id timeout duration start last w laws d h e =
      let (early, _, _, _) = loop-step zero id timeout start last w _ (λ k. cc) e in
      let on_time = sym (ap (λ t. past_deadline t start (host.clock w)) d) ∙ early in
      absurd (ground (arith, on_time))
  health_loop-fuel (suc fuel) id timeout duration start last w laws d h e =
      let (early, last', round, _) = loop-step (suc fuel) id timeout start last w _ (λ k. cc) e in
      let (w', later, again) = round-fuel _ id _ w laws round in
      health_loop-fuel fuel id timeout duration start last' w' laws d (omega arith) again

  -- A duration below zero is over at once.
  health_loop-negative :
      (id : Bytes) (timeout : ℤ) (n start last : ℕ) (w : W)
      → health_duration timeout ≡ negsuc n
      → (health_loop cli host 1 id timeout start last w).0 ≢ err out_of_fuel
  unfolding past_deadline
  health_loop-negative id timeout n start last w d e =
      let (early, _, _, _) = loop-step zero id timeout start last w _ (λ k. cc) e in
      let on_time = sym (ap (λ t. past_deadline t start (host.clock w)) d) ∙ early in cc

  rounds-fuel :
      (id : Bytes) (timeout duration : ℤ) (w : W)
      → ClockLaws
      → health_duration timeout ≡ duration
      → (health_loop cli host
          (health_rounds cli host duration)
          id
          timeout
          (host.clock w)
          (host.clock w)
          w).0
        ≢ err out_of_fuel
  rounds-fuel id timeout (pos duration) w laws d =
      health_loop-fuel (suc (duration / (poll_interval_ms * 1000000))) id timeout duration
        (host.clock w) (host.clock w) w laws d (omega arith)
  rounds-fuel id timeout (negsuc n) w laws d =
      health_loop-negative id timeout n (host.clock w) (host.clock w) w d

  -- The wait for health ends by its own tests, for every timeout, also one whose nanoseconds wrap
  -- around in an `int64`: the bound on the rounds of its loop, which is the model's and not the
  -- program's, is never met. `ClockLaws` says that an inspection does not turn
  -- the clock back and that a sleep that is not cut short takes its time.
  pub wait_healthy-terminates :
      (id : Bytes) (timeout : ℤ) (w : W)
      → ClockLaws
      → (wait_healthy cli host id timeout w).0 ≢ err out_of_fuel
  unfolding wait_healthy ◌>>=◌ now
  wait_healthy-terminates id timeout w laws e =
      rounds-fuel id timeout (health_duration timeout) w laws refl (ground (arith, e))

  loop-late :
      (fuel : ℕ) (id : Bytes) (timeout : ℤ) (start last : ℕ) (w : W)
      → past_deadline (health_duration timeout) start (host.clock w) ≡ true
      → health_loop cli host (suc fuel) id timeout start last w
        ≡ (err (health_timeout (short_id id) timeout), [], w)
  unfolding health_loop ◌>>=◌ now fail
  loop-late fuel id timeout start last w p = rw p refl

  rounds-late :
      (id : Bytes) (timeout : ℤ) (n : ℕ) (w : W)
      → health_duration timeout ≡ negsuc n
      → health_loop cli host
          (health_rounds cli host (health_duration timeout))
          id
          timeout
          (host.clock w)
          (host.clock w)
          w
        ≡ (err (health_timeout (short_id id) timeout), [], w)
  unfolding past_deadline
  rounds-late id timeout n w d =
      ap
        (λ t.
          health_loop cli host (health_rounds cli host t) id timeout (host.clock w) (host.clock w)
            w)
        d
      ∙ loop-late zero id timeout (host.clock w) (host.clock w) w
          (ap (λ t. past_deadline t (host.clock w) (host.clock w)) d)

  -- A timeout from 9223372036855 to 18446744073709 milliseconds is below zero in the `int64` of its
  -- nanoseconds: the wait fails with the timeout's error at once, without an inspection.
  pub wait_healthy-overflow :
      (id : Bytes) (timeout : ℕ) (w : W)
      → 9223372036855 ≤ timeout
      → timeout ≤ 18446744073709
      → ((wait_healthy cli host id (pos timeout) w).0
          ≡ err (health_timeout (short_id id) (pos timeout)))
        × ((wait_healthy cli host id (pos timeout) w).1 ≡ [])
  unfolding wait_healthy health_duration now ◌>>=◌
  wait_healthy-overflow id timeout w low high =
      let (k, e) = int64-large (timeout * 1000000) (omega (arith, low)) (omega (arith, high)) in
      let r = rounds-late id (pos timeout) k w e in (ap (λ t. t.0) r, ap (λ t. t.1) r)
