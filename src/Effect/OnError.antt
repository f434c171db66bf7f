-- ===== src/Effect/OnError.antt =====
-- Every event of a computation that fails satisfies a predicate.
use rollhook.Prelude.{refl, ap, Result, ok, err, List, ◌≡◌, ◌∙◌, sym, All, All-append}
use rollhook.Effect.{Io, Err, Event, continue, deferring, ◌>>=◌}
use rollhook.Effect.Emits.{Emits}
use rollhook.Effect.Invert.{Returns, >>=-ok}

pub record EmitsOnError {ℓ κ} {W : Type ℓ} {A : Type κ} (P : Event → Type 0) (m : Io W A)
    : Type (ℓ ⊔ κ) where
  pub at : (w : W) (e : Err) → (m w).0 ≡ err e → All P (m w).1

module _ {ℓ κ} {W : Type ℓ} {A : Type κ} {P : Event → Type 0} where
  pub OnError-Emits : (m : Io W A) → Emits P m → EmitsOnError P m
  OnError-Emits m k = record { at = λ w e h. k.at w }

  pub OnError-Returns : (m : Io W A) → Returns m → EmitsOnError P m
  OnError-Returns m k = record { at = λ w e h. let (a, g) = k.at w in absurd (cc (sym g ∙ h)) }

  pub OnError-deferring :
      (m : Io W A) (d : Io W (Unit {0}))
      → EmitsOnError P m
      → Emits P d
      → EmitsOnError P (deferring m d)
  unfolding deferring
  OnError-deferring m d km kd = record {
    at = λ w e h. All-append P (m w).1 (d (m w).2).1 (km.at w e h) (kd.at (m w).2);
  }

module _ {ℓ κ μ} {W : Type ℓ} {A : Type κ} {B : Type μ} {P : Event → Type 0} where
  continue-OnError :
      (r : Result Err A) (f : A → Io W B) (es : List Event) (w : W) (e : Err)
      → All P es
      → ((a : A) → r ≡ ok a → EmitsOnError P (f a))
      → (continue r f es w).0 ≡ err e
      → All P (continue r f es w).1
  continue-OnError (ok a) f es w e h k g = All-append P es (f a w).1 h ((k a refl).at w e g)
  continue-OnError (err x) f es w e h k g = h

  pub OnError-bind :
      (m : Io W A) (f : A → Io W B)
      → Emits P m
      → ((w : W) (a : A) → (m w).0 ≡ ok a → EmitsOnError P (f a))
      → EmitsOnError P (m >>= f)
  unfolding ◌>>=◌
  OnError-bind m f km kf = record {
    at = λ w e h. continue-OnError (m w).0 f (m w).1 (m w).2 e (km.at w) (λ a g. kf w a g) h;
  }

  -- The same at one run, where the first part is known to succeed.
  pub OnError-after :
      (m : Io W A) (f : A → Io W B) (w : W) (a : A) (e : Err)
      → Emits P m
      → EmitsOnError P (f a)
      → (m w).0 ≡ ok a
      → ((m >>= f) w).0 ≡ err e
      → All P ((m >>= f) w).1
  OnError-after m f w a e km kf first h =
      let split = >>=-ok m f w a first in
      rw split (
        All-append P (m w).1 (f a (m w).2).1 (km.at w)
          (kf.at (m w).2 e (sym (ap (λ t. t.0) split) ∙ h)))
