-- ===== src/EnvFile/Lines.antt =====
-- What the lines of an env file mean: the last line of a key wins.
use rollhook.Prelude.{
  ◌==◌, ℕ, Option-cases, Option, none, some, List, [], ◌∷◌, ◌++◌, ◌≡◌, ◌≢◌, refl, arith, Bool-cases,
  inl, inr,
}
use rollhook.Text.{Bytes, Lacks, cut_prefix, has_prefix}
use rollhook.Text.Index.{cut_prefix-append, cut_prefix-eq_some}
use rollhook.EnvFile.{key_prefix, last_line, set_line}

-- The value of a key: what stands behind `key=` on the last such line.
abbrev pub or_else {ℓ} : {A : Type ℓ} → Option A → Option A → Option A
or_else none b = b
or_else (some a) b = some a

unfoldable pub value_of : Bytes → List Bytes → Option Bytes
value_of key [] = none
value_of key (l ∷ ls) = or_else (value_of key ls) (cut_prefix (key_prefix key) l)

pub value_of-append :
    (key : Bytes) (xs ys : List Bytes)
    → value_of key (xs ++ ys) ≡ or_else (value_of key ys) (value_of key xs)
unfolding value_of
value_of-append key [] ys = ground arith
value_of-append key (x ∷ xs) ys = ground (arith, value_of-append key xs ys)

-- The line of a key has that key's value.
pub key_line : (key v : Bytes) → cut_prefix (key_prefix key) (key_prefix key ++ v) ≡ some v
key_line key v = cut_prefix-append (key_prefix key) v

-- The line of a key is no line of another one.
pub other_line :
    (key other v : Bytes)
    → Lacks b'=' key
    → Lacks b'=' other
    → key ≢ other
    → cut_prefix (key_prefix other) (key_prefix key ++ v) ≡ none
unfolding cut_prefix
other_line [] [] v hk ho ne = absurd (ne refl)
other_line [] (o ∷ os) v hk ho ne = ground (arith, ho.0)
other_line (k ∷ ks) [] v hk ho ne = ground (arith, hk.0)
other_line (k ∷ ks) (o ∷ os) v hk ho ne = elim (Bool-cases (o == k)) [
  | inl e ↦ rw e (other_line ks os v hk.1 ho.1 (λ h. ne (ground (arith, h))))
  | inr e ↦ rw e
]

pub empty_line : (key : Bytes) → cut_prefix (key_prefix key) [] ≡ none
unfolding cut_prefix
empty_line [] = refl
empty_line (k ∷ ks) = refl

-- Where the last line of a key stands, it gives the value; without one there is no value.
pub last_line-none :
    (key : Bytes) (ls : List Bytes) → last_line (key_prefix key) ls ≡ none → value_of key ls ≡ none
unfolding last_line value_of has_prefix
last_line-none key [] h = refl
last_line-none key (l ∷ ls) h = ground (arith, last_line-none key ls)

pub value_of-set_line :
    (key v : Bytes) (ls : List Bytes) {i : ℕ}
    → last_line (key_prefix key) ls ≡ some i
    → value_of key (set_line ls i (key_prefix key ++ v)) ≡ some v
unfolding last_line value_of has_prefix set_line
value_of-set_line key v [] h = cc
value_of-set_line key v (l ∷ ls) {i} h = elim (Option-cases (last_line (key_prefix key) ls)) [
  | inl e ↦ ground (arith, last_line-none key ls, key_line key v)
  | inr (j, e) ↦ ground (arith, value_of-set_line key v ls {i = j} e)
]

pub value_of-set_line_ne :
    (key other v : Bytes) (ls : List Bytes) {i : ℕ}
    → Lacks b'=' key
    → Lacks b'=' other
    → key ≢ other
    → last_line (key_prefix key) ls ≡ some i
    → value_of other (set_line ls i (key_prefix key ++ v)) ≡ value_of other ls
unfolding last_line value_of has_prefix set_line
value_of-set_line_ne key other v [] hk ho ne h = cc
value_of-set_line_ne key other v (l ∷ ls) {i} hk ho ne h =
    elim (Option-cases (last_line (key_prefix key) ls)) [
      | inl e ↦ elim (Option-cases (cut_prefix (key_prefix key) l)) [
        | inl other_key ↦ ground arith
        | inr (r, found) ↦ ground (
          arith,
          cut_prefix-eq_some (key_prefix key) l r found,
          other_line key other v hk ho ne,
          other_line key other r hk ho ne,
        )
      ]
      | inr (j, e) ↦ ground (arith, value_of-set_line_ne key other v ls {i = j} hk ho ne e)
    ]
