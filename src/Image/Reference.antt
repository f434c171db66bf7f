-- ===== src/Image/Reference.antt =====
-- What an image reference is, apart from the code that takes it apart: every text is one.
use rollhook.Prelude.{
  ◌≡◌, refl, subst, List, All, ◌∙◌, sym, ◌⊎◌, inl, inr, Option, none, some, [], ◌∷◌, ◌++◌,
  append_assoc, append-nil,
}
use rollhook.Text.{Bytes, Lacks}
use rollhook.Text.Index.{index-cases, last_index-cases}

-- `dir` is all up to the last slash: the registry and the name space.
pub record Reference : Type 0 where
  pub dir : Bytes
  pub name : Bytes
  pub tag : Option Bytes
  pub digest : Option Bytes

abbrev pub tag_text : Option Bytes → Bytes
tag_text none = []
tag_text (some t) = b':' ∷ t

abbrev pub digest_text : Option Bytes → Bytes
digest_text none = []
digest_text (some d) = b'@' ∷ d

abbrev pub IsDir : Bytes → Type 0
IsDir d = (d ≡ []) ⊎ ((q : Bytes) × (d ≡ q ++ b'/' ∷ []))

pub record IsReference (r : Reference) : Type 0 where
  pub dir_ends : IsDir r.dir
  pub dir_at : Lacks b'@' r.dir
  pub name_slash : Lacks b'/' r.name
  pub name_colon : Lacks b':' r.name
  pub name_at : Lacks b'@' r.name
  pub tag_slash : Lacks b'/' (tag_text r.tag)
  pub tag_at : Lacks b'@' (tag_text r.tag)

abbrev pub print : Reference → Bytes
print r = r.dir ++ (r.name ++ (tag_text r.tag ++ digest_text r.digest))

pub All-left {ℓ κ} : {A : Type ℓ} (P : A → Type κ) (p r : List A) → All P (p ++ r) → All P p
All-left P [] r h = tt
All-left P (x ∷ p) r h = (h.0, All-left P p r h.1)

pub All-right {ℓ κ} : {A : Type ℓ} (P : A → Type κ) (p r : List A) → All P (p ++ r) → All P r
All-right P [] r h = h
All-right P (x ∷ p) r h = All-right P p r h.1

-- A text without `@` splits into directory, name and tag.
abbrev Plain : Bytes → Type 0
Plain s = (r : Reference) × IsReference r × (print r ≡ s) × (r.digest ≡ none)

name_tag : (d s : Bytes) → IsDir d → Lacks b'@' d → Lacks b'/' s → Lacks b'@' s → Plain (d ++ s)
name_tag d s hd ha hs hat = elim (index-cases b':' s) [
  | inl h ↦ (
    record { dir = d; name = s; tag = none; digest = none },
    record {
      dir_ends = hd;
      dir_at = ha;
      name_slash = hs;
      name_colon = h;
      name_at = hat;
      tag_slash = tt;
      tag_at = tt;
    },
    rw (append-nil s),
    refl,
  )
  | inr (n, t, e, h) ↦
      let hs' = subst (Lacks b'/') e hs in
      let hat' = subst (Lacks b'@') e hat in
      (
        record { dir = d; name = n; tag = some t; digest = none },
        record {
          dir_ends = hd;
          dir_at = ha;
          name_slash = All-left _ n _ hs';
          name_colon = h;
          name_at = All-left _ n _ hat';
          tag_slash = All-right _ n _ hs';
          tag_at = All-right _ n _ hat';
        },
        rw (append-nil t, e),
        refl,
      )
]

plain : (s : Bytes) → Lacks b'@' s → Plain s
plain s h = elim (last_index-cases b'/' s) [
  | inl k ↦ name_tag [] s (inl refl) tt k h
  | inr (q, n, e, k) ↦
      let h' = subst (Lacks b'@') e h in
      let e' : s ≡ (q ++ b'/' ∷ []) ++ n = e ∙ sym (append_assoc q (b'/' ∷ []) n) in
      let at = subst (Lacks b'@') e' h in
      rw e' (name_tag (q ++ b'/' ∷ []) n (inr (q, refl)) (All-left _ _ n at) k (All-right _ _ n at))
]

print-digest :
    (a b t : Bytes) (o : Option Bytes) (p d : Bytes)
    → o ≡ none
    → a ++ (b ++ (t ++ digest_text o)) ≡ p
    → a ++ (b ++ (t ++ b'@' ∷ d)) ≡ p ++ b'@' ∷ d
print-digest a b t none p d _ f = rw (← f) (simp (append_assoc, append-nil))
print-digest a b t (some x) p d h f = cc

with_digest :
    (r : Reference) (o : Option Bytes) → IsReference r → IsReference (record r { digest = o })
with_digest r o v = record {
  dir_ends = v.dir_ends;
  dir_at = v.dir_at;
  name_slash = v.name_slash;
  name_colon = v.name_colon;
  name_at = v.name_at;
  tag_slash = v.tag_slash;
  tag_at = v.tag_at;
}

-- Every text is the print of a reference.
pub reference_of : (s : Bytes) → (r : Reference) × IsReference r × (print r ≡ s)
reference_of s = elim (index-cases b'@' s) [
  | inl h ↦ let (r, v, e, _) = plain s h in (r, v, e)
  | inr (p, d, e, h) ↦
      let (r, v, f, g) = plain p h in
      (
        record r { digest = some d },
        with_digest r (some d) v,
        print-digest r.dir r.name (tag_text r.tag) r.digest p d g f ∙ sym e,
      )
]
