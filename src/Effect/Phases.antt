-- ===== src/Effect/Phases.antt =====
-- A successful computation has two phases: up to a point all its events satisfy `P`, and what comes
-- behind is in a relation `Q` to them.
use rollhook.Prelude.{ok, List, ◌++◌, ◌≡◌, ◌∙◌, ap, sym, All, All-append, append_assoc, subst}
use rollhook.Effect.{Io, Event, ◌>>=◌}
use rollhook.Effect.Emits.{Emits}
use rollhook.Effect.Invert.{>>=-eq_ok, >>=-ok}

abbrev pub TwoPhases : (Event → Type 0) → (List Event → List Event → Type 0) → List Event → Type 0
TwoPhases P Q es =
    (before : List Event) × (after : List Event) × (es ≡ before ++ after)
    × All P before
    × Q before after

-- More events in the first phase leave the relation as it is.
abbrev pub IsClosed : (List Event → List Event → Type 0) → Type 0
IsClosed Q = (xs before after : List Event) → Q before after → Q (xs ++ before) after

pub record Phases {ℓ κ} {W : Type ℓ} {A : Type κ} (P : Event → Type 0)
    (Q : List Event → List Event → Type 0) (m : Io W A) : Type (ℓ ⊔ κ) where
  pub at : (w : W) (a : A) → (m w).0 ≡ ok a → TwoPhases P Q (m w).1

module _ {ℓ κ μ} {W : Type ℓ} {A : Type κ} {B : Type μ} {P : Event → Type 0}
    {Q : List Event → List Event → Type 0} where
  -- At one run, where the first part is known to succeed.
  pub Phases-at :
      (m : Io W A) (f : A → Io W B) (w : W) (a : A) (b : B)
      → IsClosed Q
      → Emits P m
      → Phases P Q (f a)
      → (m w).0 ≡ ok a
      → ((m >>= f) w).0 ≡ ok b
      → TwoPhases P Q ((m >>= f) w).1
  Phases-at m f w a b closed km kf first h =
      let split = >>=-ok m f w a first in
      let (before, after, e, hb, ha) = kf.at (m w).2 b (sym (ap (λ t. t.0) split) ∙ h) in
      subst (λ t. TwoPhases P Q t.1) (sym split)
        (
          (m w).1 ++ before,
          after,
          ap (◌++◌ (m w).1) e ∙ sym (append_assoc (m w).1 before after),
          All-append P (m w).1 before (km.at w) hb,
          closed (m w).1 before after ha,
        )

  pub Phases-bind :
      (m : Io W A) (f : A → Io W B)
      → IsClosed Q
      → Emits P m
      → ((a : A) → Phases P Q (f a))
      → Phases P Q (m >>= f)
  Phases-bind m f closed km kf = record {
    at = λ w b h.
        let (a, first, _) = >>=-eq_ok m f w h in Phases-at m f w a b closed km (kf a) first h;
  }
