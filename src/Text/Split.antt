-- ===== src/Text/Split.antt =====
-- `split` and `join` on a one-byte separator.
use rollhook.Prelude.{
  ◌==◌, Bool-cases, inl, inr, ℕ, List, [], ◌∷◌, ◌++◌, ◌≡◌, ◌≢◌, refl, ap, arith, All, ◌==◌, ◌∙◌,
  Bool-cases, inl, inr,
}
use rollhook.Text.{Bytes, Lacks, add_front, split, join}

add_front-append :
    (x : ℕ) (ps qs : List Bytes) → ps ≢ [] → add_front x (ps ++ qs) ≡ add_front x ps ++ qs
unfolding add_front
add_front-append x [] qs h = absurd (h refl)
add_front-append x (p ∷ ps) qs h = refl

add_front-ne-nil : (x : ℕ) (ps : List Bytes) → add_front x ps ≢ []
unfolding add_front
add_front-ne-nil x [] h = cc
add_front-ne-nil x (p ∷ ps) h = cc

pub split-ne-nil : (c : ℕ) (s : Bytes) → split c s ≢ []
unfolding split
split-ne-nil c [] = λ h. cc
split-ne-nil c (x ∷ s) = ground (arith, add_front-ne-nil x (split c s))

-- Cutting at a separator inside a text cuts both sides.
pub split-append : (c : ℕ) (s t : Bytes) → split c (s ++ c ∷ t) ≡ split c s ++ split c t
unfolding split
split-append c [] t = ground arith
split-append c (x ∷ s) t =
    ground
      (arith, split-append c s t, add_front-append x (split c s) (split c t) (split-ne-nil c s))

pub split-Lacks : (c : ℕ) (s : Bytes) → Lacks c s → split c s ≡ s ∷ []
unfolding split
split-Lacks c [] h = refl
split-Lacks c (x ∷ s) h = ground (arith, split-Lacks c s h.1)

add_front-All :
    (c x : ℕ) (ps : List Bytes) → x ≢ c → All (Lacks c) ps → All (Lacks c) (add_front x ps)
unfolding add_front
add_front-All c x [] ne h = ((ne, tt), tt)
add_front-All c x (p ∷ ps) ne h = ((ne, h.0), h.1)

-- No part holds the separator.
pub split-All-Lacks : (c : ℕ) (s : Bytes) → All (Lacks c) (split c s)
unfolding split
split-All-Lacks c [] = (tt, tt)
split-All-Lacks c (x ∷ s) = elim (Bool-cases (x == c)) [
  | inl e ↦ rw e (tt, split-All-Lacks c s)
  | inr e ↦ rw e (add_front-All c x (split c s) (ground arith) (split-All-Lacks c s))
]

-- Joining the parts of a split gives the text back.
join-add_front : (c x : ℕ) (ps : List Bytes) → ps ≢ [] → join c (add_front x ps) ≡ x ∷ join c ps
unfolding join add_front
join-add_front c x [] h = absurd (h refl)
join-add_front c x (p ∷ []) h = refl
join-add_front c x (p ∷ q ∷ ps) h = refl

join_empty_front : (c : ℕ) (ps : List Bytes) → ps ≢ [] → join c ([] ∷ ps) ≡ c ∷ join c ps
unfolding join
join_empty_front c [] h = absurd (h refl)
join_empty_front c (p ∷ ps) h = refl

pub join-split : (c : ℕ) (s : Bytes) → join c (split c s) ≡ s
unfolding split
join-split c [] = unfold join in refl
join-split c (x ∷ s) = ground (
  arith,
  join-split c s,
  join-add_front c x (split c s) (split-ne-nil c s),
  join_empty_front c (split c s) (split-ne-nil c s),
)

-- Splitting a join of parts without the separator gives the parts back.
pub split-join :
    (c : ℕ) (p : Bytes) (ps : List Bytes)
    → All (Lacks c) (p ∷ ps)
    → split c (join c (p ∷ ps)) ≡ p ∷ ps
unfolding join
split-join c p [] h = split-Lacks c p h.0
split-join c p (q ∷ ps) h =
    split-append c p (join c (q ∷ ps))
    ∙ ap (λ l. l ++ split c (join c (q ∷ ps))) (split-Lacks c p h.0)
    ∙ ap (◌∷◌ p) (split-join c q ps h.1)
