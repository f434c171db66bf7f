-- ===== src/Effect/Invert.antt =====
-- Inversion of a successful bind, for proofs in which the parts stay shut.
use rollhook.Prelude.{Result, ok, err, List, ◌++◌, ◌≡◌, ◌≢◌, refl, arith}
use rollhook.Effect.{Io, Err, Event, Line, pure, fail, log, attempt, continue, ◌>>=◌}

module _ {ℓ κ μ} {W : Type ℓ} {A : Type κ} {B : Type μ} where
  continue-eq_ok :
      (r : Result Err A) (f : A → Io W B) (es : List Event) (w : W) {b : B}
      → (continue r f es w).0 ≡ ok b
      → (a : A) × (r ≡ ok a) × ((f a w).0 ≡ ok b)
  continue-eq_ok (ok a) f es w h = (a, refl, h)
  continue-eq_ok (err e) f es w h = cc

  -- A bind succeeds if both of its parts do.
  pub >>=-eq_ok :
      (m : Io W A) (f : A → Io W B) (w : W) {b : B}
      → ((m >>= f) w).0 ≡ ok b
      → (a : A) × ((m w).0 ≡ ok a) × ((f a (m w).2).0 ≡ ok b)
  unfolding ◌>>=◌
  >>=-eq_ok m f w h = continue-eq_ok (m w).0 f (m w).1 (m w).2 h

  continue-ok :
      (r : Result Err A) (f : A → Io W B) (es : List Event) (w : W) (a : A)
      → r ≡ ok a
      → continue r f es w ≡ ((f a w).0, es ++ (f a w).1, (f a w).2)
  continue-ok (ok x) f es w a h = ground (arith, h)
  continue-ok (err e) f es w a h = cc

  -- After a success the second part runs in the world that the first leaves, behind its events.
  pub >>=-ok :
      (m : Io W A) (f : A → Io W B) (w : W) (a : A)
      → (m w).0 ≡ ok a
      → (m >>= f) w ≡ ((f a (m w).2).0, (m w).1 ++ (f a (m w).2).1, (f a (m w).2).2)
  unfolding ◌>>=◌
  >>=-ok m f w a h = continue-ok (m w).0 f (m w).1 (m w).2 a h

  continue-err :
      (r : Result Err A) (f : A → Io W B) (es : List Event) (w : W) (e : Err)
      → r ≡ err e
      → continue r f es w ≡ (err e, es, w)
  continue-err (ok x) f es w e h = cc
  continue-err (err x) f es w e h = ground (arith, h)

  -- After an error nothing else is done.
  pub >>=-err :
      (m : Io W A) (f : A → Io W B) (w : W) (e : Err)
      → (m w).0 ≡ err e
      → (m >>= f) w ≡ (err e, (m w).1, (m w).2)
  unfolding ◌>>=◌
  >>=-err m f w e h = continue-err (m w).0 f (m w).1 (m w).2 e h

-- Computations that always succeed.
pub record Returns {ℓ κ} {W : Type ℓ} {A : Type κ} (m : Io W A) : Type (ℓ ⊔ κ) where
  pub at : (w : W) → (a : A) × ((m w).0 ≡ ok a)

module _ {ℓ κ} {W : Type ℓ} {A : Type κ} where
  pub Returns-pure : (a : A) → Returns (pure {W = W} a)
  unfolding pure
  Returns-pure a = record { at = λ w. (a, refl) }

  pub Returns-attempt : (m : Io W A) → Returns (attempt m)
  unfolding attempt
  Returns-attempt m = record { at = λ w. ((m w).0, refl) }

module _ {ℓ} {W : Type ℓ} where
  pub Returns-log : (l : Line) → Returns (log {W = W} l)
  unfolding log
  Returns-log l = record { at = λ w. (tt, refl) }

module _ {ℓ κ μ} {W : Type ℓ} {A : Type κ} {B : Type μ} where
  pub Returns-then :
      (m : Io W A) (f : A → Io W B) → Returns m → ((a : A) → Returns (f a)) → Returns (m >>= f)
  Returns-then m f km kf = record {
    at =
        λ w. let (a, e) = km.at w in let (b, g) = (kf a).at (m w).2 in (b, rw (>>=-ok m f w a e) g);
  }

pub ruleset returns_rules = (Returns-pure, Returns-attempt, Returns-log, Returns-then)

module _ {ℓ κ} {W : Type ℓ} {A : Type κ} where
  pub pure-eq_ok : (a b : A) (w : W) → (pure a w).0 ≡ ok b → a ≡ b
  unfolding pure
  pure-eq_ok a b w h = cc

  pub fail-ne_ok : (e : Err) (b : A) (w : W) → (fail e w).0 ≢ ok b
  unfolding fail
  fail-ne_ok e b w h = cc

  pub attempt-eq_ok : (m : Io W A) (w : W) (r : Result Err A) → (attempt m w).0 ≡ ok r → (m w).0 ≡ r
  unfolding attempt
  attempt-eq_ok m w r h = cc
