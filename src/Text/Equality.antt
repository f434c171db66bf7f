-- ===== src/Text/Equality.antt =====
-- `beq` decides equality of texts.
use rollhook.Prelude.{true, false, [], ◌∷◌, ◌≡◌, ◌≢◌, ◌⊎◌, inl, inr, ap, refl, arith, Bool-cases}
use rollhook.Text.{Bytes, beq}

pub eq_of_beq : (s t : Bytes) → beq s t ≡ true → s ≡ t
unfolding beq
eq_of_beq [] [] h = refl
eq_of_beq [] (b ∷ t) h = cc
eq_of_beq (a ∷ s) [] h = cc
eq_of_beq (a ∷ s) (b ∷ t) h = ground (arith, eq_of_beq s t)

pub beq_self : (s : Bytes) → beq s s ≡ true
unfolding beq
beq_self [] = refl
beq_self (a ∷ s) = ground (arith, beq_self s)

-- To split on a test of equality.
pub beq-cases : (s t : Bytes) → ((beq s t ≡ true) × (s ≡ t)) ⊎ ((beq s t ≡ false) × (s ≢ t))
beq-cases s t = elim (Bool-cases (beq s t)) [
  | inl h ↦ inl (h, eq_of_beq s t h)
  | inr h ↦ inr (h, λ e. cc (beq_self s, ap (beq s) e))
]

pub beq_ne : (s t : Bytes) → s ≢ t → beq s t ≡ false
beq_ne s t ne = elim (beq-cases s t) [ inl (_, e) ↦ absurd (ne e) | inr (e, _) ↦ e ]
