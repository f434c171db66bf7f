-- ===== src/Effect/Makes.antt =====
-- What stands among the events of a computation that always succeeds.
use rollhook.Prelude.{ok, List, [], ◌∷◌, ◌++◌, ◌≡◌, ap, ◌∙◌, sym, append_assoc, subst}
use rollhook.Effect.{Io, Event, ◌>>=◌}
use rollhook.Effect.Invert.{Returns, >>=-ok}

abbrev pub Occurs : Event → List Event → Type 0
Occurs e es = (before : List Event) × (after : List Event) × (es ≡ before ++ e ∷ after)

-- The first event, and the second somewhere behind it.
abbrev pub InOrder : Event → Event → List Event → Type 0
InOrder d e es =
    (before : List Event) × (after : List Event) × (es ≡ before ++ d ∷ after) × Occurs e after

pub Occurs-append_right : (e : Event) (xs es : List Event) → Occurs e es → Occurs e (xs ++ es)
Occurs-append_right e xs es (before, after, h) =
    (xs ++ before, after, ap (◌++◌ xs) h ∙ sym (append_assoc xs before (e ∷ after)))

pub Occurs-append_left : (e : Event) (es ys : List Event) → Occurs e es → Occurs e (es ++ ys)
Occurs-append_left e es ys (before, after, h) =
    (before, after ++ ys, ap (λ l. l ++ ys) h ∙ append_assoc before (e ∷ after) ys)

pub InOrder-append_right :
    (d e : Event) (xs es : List Event) → InOrder d e es → InOrder d e (xs ++ es)
InOrder-append_right d e xs es (before, after, h, o) =
    (xs ++ before, after, ap (◌++◌ xs) h ∙ sym (append_assoc xs before (d ∷ after)), o)

pub InOrder-append_left :
    (d e : Event) (es ys : List Event) → InOrder d e es → InOrder d e (es ++ ys)
InOrder-append_left d e es ys (before, after, h, o) = (
  before,
  after ++ ys,
  ap (λ l. l ++ ys) h ∙ append_assoc before (d ∷ after) ys,
  Occurs-append_left e after ys o,
)

pub record Makes {ℓ κ} {W : Type ℓ} {A : Type κ} (Q : List Event → Type 0) (m : Io W A)
    : Type (ℓ ⊔ κ) where
  pub at : (w : W) → Q (m w).1

module _ {ℓ κ μ} {W : Type ℓ} {A : Type κ} {B : Type μ} (Q : List Event → Type 0) where
  -- The second part makes it.
  pub Makes-after :
      (m : Io W A) (f : A → Io W B)
      → Returns m
      → ((xs es : List Event) → Q es → Q (xs ++ es))
      → ((a : A) → Makes Q (f a))
      → Makes Q (m >>= f)
  Makes-after m f km closed kf = record {
    at = λ w.
        let (a, e) = km.at w in
        rw (>>=-ok m f w a e) (closed (m w).1 (f a (m w).2).1 ((kf a).at (m w).2));
  }

  -- The one event of the first part makes it, with what the second part does.
  pub Makes-here :
      (m : Io W A) (f : A → Io W B) (d : Event)
      → Returns m
      → ((w : W) → (m w).1 ≡ d ∷ [])
      → ((a : A) (w : W) → Q (d ∷ (f a w).1))
      → Makes Q (m >>= f)
  Makes-here m f d km one kf = record {
    at = λ w.
        let (a, e) = km.at w in
        rw (>>=-ok m f w a e) (subst (λ l. Q (l ++ (f a (m w).2).1)) (sym (one w)) (kf a (m w).2));
  }

module _ {ℓ κ μ} {W : Type ℓ} {A : Type κ} {B : Type μ} where
  -- An event of either part is one of the whole, where the first part succeeds.
  pub Occurs-bind_left :
      (e : Event) (m : Io W A) (f : A → Io W B) (w : W) (a : A)
      → (m w).0 ≡ ok a
      → Occurs e (m w).1
      → Occurs e ((m >>= f) w).1
  Occurs-bind_left e m f w a h o = rw (>>=-ok m f w a h) (Occurs-append_left e (m w).1 _ o)

  pub Occurs-bind_right :
      (e : Event) (m : Io W A) (f : A → Io W B) (w : W) (a : A)
      → (m w).0 ≡ ok a
      → Occurs e (f a (m w).2).1
      → Occurs e ((m >>= f) w).1
  Occurs-bind_right e m f w a h o = rw (>>=-ok m f w a h) (Occurs-append_right e (m w).1 _ o)
