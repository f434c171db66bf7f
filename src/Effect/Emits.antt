-- ===== src/Effect/Emits.antt =====
-- Every event of a computation satisfies a predicate: one rule for each way to build it.
use rollhook.Prelude.{
  Result, ok, err, List, [], ◌∷◌, Bool, true, false, if◌then◌else◌, ◌≡◌, refl, All, All-append,
}
use rollhook.Effect.{
  Io, Err, Fault, Event, Line, logged, pure, fail, call, attempt, log, continue, deferring, ◌>>=◌,
}

pub record Emits {ℓ κ} {W : Type ℓ} {A : Type κ} (P : Event → Type 0) (m : Io W A)
    : Type (ℓ ⊔ κ) where
  pub at : (w : W) → All P (m w).1

module _ {ℓ κ} {W : Type ℓ} {A : Type κ} {P : Event → Type 0} where
  pub Emits-pure : (a : A) → Emits P (pure {W = W} a)
  unfolding ◌>>=◌
  Emits-pure a = record { at = λ w. tt }

  pub Emits-fail : (e : Err) → Emits P (fail {W = W} {A = A} e)
  unfolding ◌>>=◌
  Emits-fail e = record { at = λ w. tt }

  pub Emits-call :
      (e : Event) (op : W → Result Fault A × W) (wrap : Fault → Err)
      → P e
      → Emits P (call e op wrap)
  unfolding ◌>>=◌
  Emits-call e op wrap h = record { at = λ w. (h, tt) }

  pub Emits-attempt : (m : Io W A) → Emits P m → Emits P (attempt m)
  unfolding ◌>>=◌
  Emits-attempt m k = record { at = k.at }

  pub Emits-if :
      (b : Bool) (m n : Io W A)
      → (b ≡ true → Emits P m)
      → (b ≡ false → Emits P n)
      → Emits P (if b then m else n)
  Emits-if true m n km kn = km refl
  Emits-if false m n km kn = kn refl

module _ {ℓ} {W : Type ℓ} {P : Event → Type 0} where
  pub Emits-log : (l : Line) → P (logged l) → Emits P (log {W = W} l)
  unfolding ◌>>=◌
  Emits-log l h = record { at = λ w. (h, tt) }

module _ {ℓ κ μ} {W : Type ℓ} {A : Type κ} {B : Type μ} {P : Event → Type 0} where
  continue-All :
      (r : Result Err A) (f : A → Io W B) (es : List Event) (w : W)
      → All P es
      → ((a : A) → r ≡ ok a → Emits P (f a))
      → All P (continue r f es w).1
  continue-All (ok a) f es w h k = All-append P es (f a w).1 h ((k a refl).at w)
  continue-All (err e) f es w h k = h

  -- The rest may use what the first part returned.
  pub Emits-bind :
      (m : Io W A) (f : A → Io W B)
      → Emits P m
      → ((w : W) (a : A) → (m w).0 ≡ ok a → Emits P (f a))
      → Emits P (m >>= f)
  unfolding ◌>>=◌
  Emits-bind m f km kf = record {
    at = λ w. let (r, es, w') = m w in continue-All r f es w' (km.at w) (λ a e. kf w a e);
  }

  pub Emits-then :
      (m : Io W A) (f : A → Io W B) → Emits P m → ((a : A) → Emits P (f a)) → Emits P (m >>= f)
  Emits-then m f km kf = Emits-bind m f km (λ w a e. kf a)

module _ {ℓ κ} {W : Type ℓ} {A : Type κ} {P : Event → Type 0} where
  pub Emits-deferring :
      (m : Io W A) (d : Io W (Unit {0})) → Emits P m → Emits P d → Emits P (deferring m d)
  unfolding deferring
  Emits-deferring m d km kd = record {
    at = λ w. All-append P (m w).1 (d (m w).2).1 (km.at w) (kd.at (m w).2);
  }

  pub Emits-mono :
      {Q : Event → Type 0} (m : Io W A) → ((e : Event) → P e → Q e) → Emits P m → Emits Q m
  Emits-mono {Q} m f k = record { at = λ w. go (m w).1 (k.at w) }
    where
      go : (es : List Event) → All P es → All Q es
      go [] h = tt
      go (e ∷ es) h = (f e h.0, go es h.1)

pub ruleset emits_rules = (
  Emits-pure, Emits-fail, Emits-call, Emits-attempt, Emits-log, Emits-if, Emits-deferring,
  Emits-then,
)
