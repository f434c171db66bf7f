-- ===== src/Rollout/Ranged.antt =====
-- What holds of every key of a `range` over a map.
use rollhook.Prelude.{
  true, false, List, [], ◌∷◌, arith, ◌≡◌, ◌≢◌, refl, subst, All, All-imp, Bool-cases, inl, inr,
}
use rollhook.Text.{Bytes, beq}
use rollhook.Text.Equality.{beq_self, eq_of_beq}
use rollhook.Docker.{Summary}
use rollhook.Host.{Host}
use rollhook.Rollout.{distinct, member}
use rollhook.Rollout.Polls.{not_member-distinct, All-map_id}
use rollhook.Rollout.Outcome.{ids_of}

-- `range` over a map visits each of its keys.
abbrev pub VisitsAll : {W : Type 0} → Host W → Type 0
VisitsAll host =
    (id : Bytes) (ids : List Bytes) → member id ids ≡ true → member id (host.range_order ids) ≡ true

All-member :
    (P : Bytes → Type 0) (id : Bytes) (ids : List Bytes) → All P ids → member id ids ≡ true → P id
unfolding member
All-member P id [] h m = cc
All-member P id (x ∷ ids) h m = elim (Bool-cases (beq x id)) [
  | inl e ↦ subst P (eq_of_beq x id e) h.0
  | inr e ↦ All-member P id ids h.1 (ground (arith, e, m))
]

not_member : (id : Bytes) (ids : List Bytes) → All (λ x. x ≢ id) ids → member id ids ≡ false
unfolding member
not_member id [] h = refl
not_member id (x ∷ ids) h = elim (Bool-cases (beq x id)) [
  | inl e ↦ absurd (h.0 (eq_of_beq x id e))
  | inr e ↦ rw e (not_member id ids h.1)
]

member-distinct :
    (id : Bytes) (ids : List Bytes) → member id ids ≡ true → member id (distinct ids) ≡ true
member-distinct id ids h = elim (Bool-cases (member id (distinct ids))) [
  | inl e ↦ e
  | inr e ↦ cc (not_member id ids (not_member-distinct id ids e))
]

members : (ids : List Bytes) → All (λ id. member id ids ≡ true) ids
unfolding member
members [] = tt
members (x ∷ ids) =
    (ground (arith, beq_self x), All-imp ids (λ id h. ground (arith, h)) (members ids))

-- What holds of every key in the order of a `range` holds of every container of the list.
pub All-ranged :
    {W : Type 0} (host : Host W) (P : Bytes → Type 0) (old : List Summary)
    → VisitsAll host
    → All P (host.range_order (distinct (ids_of old)))
    → All (λ c. P c.id) old
All-ranged host P old visits h = All-map_id P old (
    All-imp (ids_of old)
      (λ id m. All-member P id _ h (visits id _ (member-distinct id (ids_of old) m)))
      (members (ids_of old)))
