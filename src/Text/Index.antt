-- ===== src/Text/Index.antt =====
-- Where a byte stands in a text.
use native.Mathlib.Decide.{ℕ_discrete}
use rollhook.Prelude.{ℕ, [], ◌∷◌, ◌++◌, ◌≡◌, ◌⊎◌, inl, inr, none, some, ap, refl, arith, length}
use rollhook.Text.{Bytes, Lacks, index, last_index, cut_prefix}

pub index-Lacks : (c : ℕ) (s : Bytes) → Lacks c s → index c s ≡ none
unfolding index
index-Lacks c [] h = refl
index-Lacks c (x ∷ s) h = ground (arith, index-Lacks c s h.1)

-- The first occurrence stands behind a text without the byte.
pub index-append : (c : ℕ) (p r : Bytes) → Lacks c p → index c (p ++ c ∷ r) ≡ some (length p)
unfolding index
index-append c [] r h = ground arith
index-append c (x ∷ p) r h = ground (arith, index-append c p r h.1)

pub last_index-Lacks : (c : ℕ) (s : Bytes) → Lacks c s → last_index c s ≡ none
unfolding last_index
last_index-Lacks c [] h = refl
last_index-Lacks c (x ∷ s) h = ground (arith, last_index-Lacks c s h.1)

-- The last occurrence stands before a text without the byte.
pub last_index-append :
    (c : ℕ) (p r : Bytes) → Lacks c r → last_index c (p ++ c ∷ r) ≡ some (length p)
unfolding last_index
last_index-append c [] r h = ground (arith, last_index-Lacks c r h)
last_index-append c (x ∷ p) r h = ground (arith, last_index-append c p r h)

-- Every text lacks the byte or is cut at its first occurrence.
pub index-cases :
    (c : ℕ) (s : Bytes) → Lacks c s ⊎ ((p : Bytes) × (r : Bytes) × (s ≡ p ++ c ∷ r) × Lacks c p)
index-cases c [] = inl tt
index-cases c (x ∷ s) = elim (ℕ_discrete x c) [
  | yes e ↦ inr ([], s, ap (λ y. y ∷ s) e, tt)
  | no ne ↦ elim (index-cases c s) [
    | inl h ↦ inl (ne, h)
    | inr (p, r, e, h) ↦ inr (x ∷ p, r, ap (◌∷◌ x) e, (ne, h))
  ]
]

-- Every text lacks the byte or is cut at its last occurrence.
pub last_index-cases :
    (c : ℕ) (s : Bytes) → Lacks c s ⊎ ((p : Bytes) × (r : Bytes) × (s ≡ p ++ c ∷ r) × Lacks c r)
last_index-cases c [] = inl tt
last_index-cases c (x ∷ s) = elim (last_index-cases c s) [
  | inr (p, r, e, h) ↦ inr (x ∷ p, r, ap (◌∷◌ x) e, h)
  | inl h ↦ elim (ℕ_discrete x c) [
    | yes e ↦ inr ([], s, ap (λ y. y ∷ s) e, h)
    | no ne ↦ inl (ne, h)
  ]
]

pub cut_prefix-append : (p s : Bytes) → cut_prefix p (p ++ s) ≡ some s
unfolding cut_prefix
cut_prefix-append [] s = refl
cut_prefix-append (x ∷ p) s = ground (arith, cut_prefix-append p s)

-- What `cut_prefix` returns is the rest.
pub cut_prefix-eq_some : (p s r : Bytes) → cut_prefix p s ≡ some r → s ≡ p ++ r
unfolding cut_prefix
cut_prefix-eq_some [] s r h = cc
cut_prefix-eq_some (x ∷ p) [] r h = cc
cut_prefix-eq_some (x ∷ p) (y ∷ s) r h = ground (arith, cut_prefix-eq_some p s r)
