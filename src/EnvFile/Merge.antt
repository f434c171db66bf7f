-- ===== src/EnvFile/Merge.antt =====
-- What `set_env_line` does to the text, by way of its lines.
use mathlib.Core.List.{reverse-append, reverse-reverse}
use mathlib.Core.List.{reverse}
use rollhook.Prelude.{
  ℕ, suc, zero, Option-cases, true, none, some, List, [], ◌∷◌, ◌++◌, ◌≡◌, ◌≢◌, refl, ap, sym, ◌∙◌,
  arith, All, Bool-cases, inl, inr, append_assoc, ◌⊎◌,
}
use rollhook.Text.{Bytes, Lacks, beq, has_suffix, has_prefix, cut_prefix, split, join}
use rollhook.Text.Equality.{eq_of_beq}
use rollhook.Text.Index.{cut_prefix-eq_some}
use rollhook.Text.Split.{split-append, split-Lacks, split-All-Lacks, split-join, split-ne-nil}
use rollhook.EnvFile.{newline, key_prefix, last_line, set_line, append_line, set_env_line}
use rollhook.EnvFile.Lines.{value_of, value_of-append, other_line, empty_line, value_of-set_line_ne}

-- A text with a suffix ends in it.
has_suffix-eq_true : (p s : Bytes) → has_suffix p s ≡ true → (q : Bytes) × (s ≡ q ++ p)
unfolding has_suffix has_prefix
has_suffix-eq_true p s h = elim (Option-cases (cut_prefix (reverse p) (reverse s))) [
  | inl e ↦ absurd (ground (arith, e))
  | inr (r, e) ↦ (
    reverse r,
    sym (reverse-reverse s)
        ∙ ap reverse (cut_prefix-eq_some (reverse p) (reverse s) r e)
        ∙ reverse-append (reverse p) r
        ∙ ap (◌++◌ (reverse r)) (reverse-reverse p),
  )
]

-- The lines of a text behind which a line is put: the new line stands last, or before an empty one.
abbrev Appended : List Bytes → Bytes → List Bytes → Type 0
Appended old line new =
    (new ≡ old ++ line ∷ [])
    ⊎ ((old ≡ [] ∷ []) × (new ≡ line ∷ []))
    ⊎ ((kept : List Bytes) × (old ≡ kept ++ [] ∷ []) × (new ≡ kept ++ line ∷ [] ∷ []))

split_ended : (s : Bytes) → split newline (s ++ newline ∷ []) ≡ split newline s ++ [] ∷ []
split_ended s = split-append newline s [] ∙ ap (◌++◌ (split newline s)) (split-Lacks newline [] tt)

append_line-lines :
    (text line : Bytes)
    → Lacks newline line
    → Appended (split newline text) line (split newline (append_line text line))
unfolding append_line
append_line-lines text line h = elim (Bool-cases (beq text [])) [
  | inl e ↦ rw e (
      inr (
        inl (
          ap (split newline) (eq_of_beq text [] e) ∙ split-Lacks newline [] tt,
          split-Lacks newline line h,
        )))
  | inr e ↦ elim (Bool-cases (has_suffix (newline ∷ []) text)) [
    | inr f ↦
        rw (e, f)
          (inl (
            split-append newline text line
            ∙ ap (◌++◌ (split newline text)) (split-Lacks newline line h)))
    | inl f ↦
        let (q, g) = has_suffix-eq_true (newline ∷ []) text f in
        rw (e, f)
          (inr (
            inr (
              split newline q,
              ap (split newline) g ∙ split_ended q,
              ap (λ t. split newline (t ++ (line ++ newline ∷ []))) g
                  ∙ ap (split newline) (append_assoc q (newline ∷ []) (line ++ newline ∷ []))
                  ∙ split-append newline q (line ++ newline ∷ [])
                  ∙ ap (◌++◌ (split newline q))
                      (split_ended line ∙ ap (λ l. l ++ [] ∷ []) (split-Lacks newline line h)),
            )))
  ]
]

set_line-Lacks :
    (ls : List Bytes) (i : ℕ) (line : Bytes)
    → Lacks newline line
    → All (Lacks newline) ls
    → All (Lacks newline) (set_line ls i line)
unfolding set_line
set_line-Lacks [] i line h hs = tt
set_line-Lacks (l ∷ ls) zero line h hs = (h, hs.1)
set_line-Lacks (l ∷ ls) (suc i) line h hs = (hs.0, set_line-Lacks ls i line h hs.1)

set_line-ne-nil : (ls : List Bytes) (i : ℕ) (line : Bytes) → ls ≢ [] → set_line ls i line ≢ []
unfolding set_line
set_line-ne-nil [] i line h = h
set_line-ne-nil (l ∷ ls) zero line h = λ e. cc
set_line-ne-nil (l ∷ ls) (suc i) line h = λ e. cc

split-join-All :
    (ls : List Bytes) → ls ≢ [] → All (Lacks newline) ls → split newline (join newline ls) ≡ ls
split-join-All [] h hs = absurd (h refl)
split-join-All (l ∷ ls) h hs = split-join newline l ls hs

-- The two outcomes, on the lines: the last line of the key is replaced, or a line is put behind.
abbrev pub Merged : Bytes → List Bytes → Bytes → List Bytes → Type 0
Merged key old line new =
    ((i : ℕ) × (last_line (key_prefix key) old ≡ some i) × (new ≡ set_line old i line))
    ⊎ ((last_line (key_prefix key) old ≡ none) × Appended old line new)

set_env_line-Merged :
    (text key value : Bytes)
    → Lacks newline (key_prefix key ++ value)
    → Merged key
        (split newline text)
        (key_prefix key ++ value)
        (split newline (set_env_line text key value))
unfolding set_env_line
set_env_line-Merged text key value h =
    elim (Option-cases (last_line (key_prefix key) (split newline text))) [
      | inl e ↦
          rw (e, set_env_line) (inr (refl, append_line-lines text (key_prefix key ++ value) h))
      | inr (i, e) ↦
          rw (e, set_env_line)
            (inl (
              i,
              refl,
              split-join-All (set_line (split newline text) i (key_prefix key ++ value))
                  (set_line-ne-nil _ i _ (split-ne-nil newline text))
                  (set_line-Lacks (split newline text) i _ h (split-All-Lacks newline text)),
            ))
    ]

Appended-other :
    (key other value : Bytes) (old new : List Bytes)
    → cut_prefix (key_prefix other) (key_prefix key ++ value) ≡ none
    → Appended old (key_prefix key ++ value) new
    → value_of other new ≡ value_of other old
unfolding value_of
Appended-other key other value old new h (inl e) =
    rw e (ground (arith, value_of-append other old ((key_prefix key ++ value) ∷ []), h))
Appended-other key other value old new h (inr (inl (f, e))) =
    rw (e, f) (ground (arith, h, empty_line other))
Appended-other key other value old new h (inr (inr (kept, f, e))) =
    rw (e, f)
      (ground (
        arith,
        value_of-append other kept ((key_prefix key ++ value) ∷ [] ∷ []),
        value_of-append other kept ([] ∷ []),
        h,
        empty_line other,
      ))

-- Every other key keeps the value that it had, or keeps having none. Neither the key nor the value
-- holds a line break, and neither of the two keys holds an equals sign.
pub value_of-set_env_line_ne :
    (text key other value : Bytes)
    → Lacks newline (key_prefix key ++ value)
    → Lacks b'=' key
    → Lacks b'=' other
    → key ≢ other
    → value_of other (split newline (set_env_line text key value))
      ≡ value_of other (split newline text)
value_of-set_env_line_ne text key other value h hk ho ne =
    elim (set_env_line-Merged text key value h) [
      | inl (i, e, f) ↦ rw f (value_of-set_line_ne key other value (split newline text) hk ho ne e)
      | inr (_, a) ↦ Appended-other key other value _ _ (other_line key other value hk ho ne) a
    ]
