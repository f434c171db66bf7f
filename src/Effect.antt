-- ===== src/Effect.antt =====
-- What a deployment does to the outside world: the calls that it makes and the lines that it logs,
-- in order, with Go's `(value, error)` results. `W` is the state of everything outside. To unfold
-- `◌>>=◌` is to unfold the other combinators.
mod Types
pub mod Emits
pub mod Invert
pub mod OnError
pub mod Makes
pub mod Phases
pub use Types.*
use rollhook.Prelude.{Result, ok, err, List, [], ◌∷◌, ◌++◌, Option, none, some}

abbrev pub Io {ℓ κ} : Type ℓ → Type κ → Type (ℓ ⊔ κ)
Io W A = W → Result Err A × List Event × W

-- `if err != nil { return fmt.Errorf("…: %w", err) }`
abbrev pub map_err {ℓ} : {A : Type ℓ} → (Fault → Err) → Result Fault A → Result Err A
map_err wrap (ok a) = ok a
map_err wrap (err f) = err (wrap f)

module _ {ℓ κ} {W : Type ℓ} {A : Type κ} where
  unfoldable pub pure : A → Io W A
  pure a w = (ok a, [], w)

  unfoldable pub fail : Err → Io W A
  fail e w = (err e, [], w)

  -- One call to the outside, with its record and the wrapping of its error.
  unfoldable pub call : Event → (W → Result Fault A × W) → (Fault → Err) → Io W A
  call e op wrap w = let (r, w') = op w in (map_err wrap r, e ∷ [], w')

  -- The error as a value, for the callers that only log it.
  unfoldable pub attempt : Io W A → Io W (Result Err A)
  attempt m w = let (r, es, w') = m w in (ok r, es, w')

module _ {ℓ} {W : Type ℓ} where
  unfoldable pub log : Line → Io W (Unit {0})
  log l w = (ok tt, logged l ∷ [], w)

module _ {ℓ κ μ} {W : Type ℓ} {A : Type κ} {B : Type μ} where
  abbrev pub continue : Result Err A → (A → Io W B) → List Event → W → Result Err B × List Event × W
  continue (ok a) f es w = let (r, fs, w') = f a w in (r, es ++ fs, w')
  continue (err e) f es w = (err e, es, w)

  infixl 5 ◌>>=◌ ◌>>◌
  unfoldable pub ◌>>=◌ : Io W A → (A → Io W B) → Io W B
  unfolding pure fail call attempt log
  ◌>>=◌ m f w = let (r, es, w') = m w in continue r f es w'

  abbrev pub ◌>>◌ : Io W A → Io W B → Io W B
  m >> k = m >>= λ _. k

module _ {ℓ κ} {W : Type ℓ} {A : Type κ} where
  -- `defer`: the second runs when the first has returned, whatever it returned.
  unfoldable pub deferring : Io W A → Io W (Unit {0}) → Io W A
  deferring m d w = let (r, es, w') = m w in let (_, fs, w'') = d w' in (r, es ++ fs, w'')
