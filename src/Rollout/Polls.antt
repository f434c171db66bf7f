-- ===== src/Rollout/Polls.antt =====
-- What the polls for new containers return.
use rollhook.Prelude.{
  ℕ, zero, suc, Bool, true, false, not, List, [], ◌∷◌, ok, arith, ◌≡◌, ◌≢◌, refl, ap, subst, All,
  ◌≤◌, map, length, select, Bool-cases, inl, inr, leb, if◌then◌else◌,
}
use rollhook.Text.{Bytes, beq}
use rollhook.Text.Equality.{beq_self}
use rollhook.Effect.{Io, pure}
use rollhook.Effect.Invert.{>>=-eq_ok, pure-eq_ok, fail-ne_ok}
use rollhook.Docker.{Docker, Summary}
use rollhook.Host.{Host}
use rollhook.Rollout.{member, distinct, find_new_containers, poll_again, poll_new_containers}

-- An identifier outside the distinct ones is none of the list.
pub not_member-distinct :
    (id : Bytes) (ids : List Bytes) → member id (distinct ids) ≡ false → All (λ x. x ≢ id) ids
unfolding member distinct
not_member-distinct id [] h = tt
not_member-distinct id (x ∷ ids) h = elim (Bool-cases (member x (distinct ids))) [
  | inl e ↦
      let rest : member id (distinct ids) ≡ false = ground (arith, e) in
      (λ x_id. cc (ap (λ y. member y (distinct ids)) x_id), not_member-distinct id ids rest)
  | inr e ↦
      let both : (beq x id ≡ false) × (member id (distinct ids) ≡ false) = ground (arith, e) in
      (λ x_id. cc (ap (beq x) x_id, beq_self x), not_member-distinct id ids both.1)
]

pub All-map_id :
    (P : Bytes → Type 0) (cs : List Summary)
    → All P (map (λ (c : Summary). c.id) cs)
    → All (λ c. P c.id) cs
All-map_id P [] h = tt
All-map_id P (c ∷ cs) h = (h.0, All-map_id P cs h.1)

All-select {ℓ} : {A : Type ℓ} (p : A → Bool) (xs : List A) → All (λ x. p x ≡ true) (select p xs)
All-select p [] = tt
All-select p (x ∷ xs) = ground (arith, All-select p xs)

-- Containers found as new: none has an old identifier.
abbrev pub AreNew : List Bytes → List Summary → Type 0
AreNew old_ids = All (λ c. not (member c.id old_ids) ≡ true)

module _ {W : Type 0} (cli : Docker W) (host : Host W) where
  find_new-ok :
      (project service : Bytes) (old_ids : List Bytes) (w : W) {new : List Summary}
      → (find_new_containers cli host project service old_ids w).0 ≡ ok new
      → AreNew old_ids new
  unfolding find_new_containers
  find_new-ok project service old_ids w {new} h =
      let (all, _, g) = >>=-eq_ok _ _ w h in
      subst (AreNew old_ids) (pure-eq_ok _ new _ g) (All-select _ all)

  enough :
      (old_ids : List Bytes) (expected : ℕ) (polled : List Summary) (again : Io W (List Summary))
      (b : Bool)
      → leb expected (length polled) ≡ b
      → AreNew old_ids polled
      → {new : List Summary} (w' : W)
      → ((again w').0 ≡ ok new → AreNew old_ids new × (expected ≤ length new))
      → ((if b then pure polled else again) w').0 ≡ ok new
      → AreNew old_ids new × (expected ≤ length new)
  enough old_ids expected polled again true le older {new} w' ih h =
      let same = pure-eq_ok polled new w' h in
      subst (λ l. AreNew old_ids l × (expected ≤ length l)) same (older, ground (arith, le))
  enough old_ids expected polled again false le older w' ih h = ih h

  poll_again-ok :
      (n found : ℕ) (project service : Bytes) (old_ids : List Bytes) (expected : ℕ) (w : W)
      {new : List Summary}
      → (poll_again cli host n found project service old_ids expected w).0 ≡ ok new
      → AreNew old_ids new × (expected ≤ length new)
  unfolding poll_again
  poll_again-ok zero found project service old_ids expected w {new} h =
      absurd (fail-ne_ok _ new w h)
  poll_again-ok (suc n) found project service old_ids expected w {new} h =
      let (_, _, after_pause) = >>=-eq_ok _ _ w h in
      let (polled, found_new, last) = >>=-eq_ok _ _ _ after_pause in
      let older = find_new-ok project service old_ids _ found_new in
      enough old_ids expected polled _ _ refl older _
        (poll_again-ok n (length polled) project service old_ids expected _) last

  -- The polling for new containers answers, if it does not fail, only containers that are none of
  -- the old ones, and at least as many as are expected.
  pub poll_new-ok :
      (project service : Bytes) (old_ids : List Bytes) (expected : ℕ) (w : W) {new : List Summary}
      → (poll_new_containers cli host project service old_ids expected w).0 ≡ ok new
      → AreNew old_ids new × (expected ≤ length new)
  unfolding poll_new_containers
  poll_new-ok project service old_ids expected w {new} h =
      let (polled, found_new, last) = >>=-eq_ok _ _ w h in
      enough old_ids expected polled _ _ refl (find_new-ok project service old_ids w found_new) _
        (poll_again-ok 10 (length polled) project service old_ids expected _) last
