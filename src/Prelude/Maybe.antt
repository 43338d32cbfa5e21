-- ===== src/Prelude/Maybe.antt =====
-- The `do` notation of `Option`. In the engine `none` is a panic: an index that is out of range.
use mathlib.Core.Path.{◌≡◌, refl}
use mathlib.Core.Option.{Option, none, some}

module _ {ℓ κ} {A : Type ℓ} {B : Type κ} where
  infixl 5 ◌>>=◌
  abbrev pub ◌>>=◌ : Option A → (A → Option B) → Option B
  none >>= f = none
  some a >>= f = f a

  -- Inversion of a chain that succeeded.
  pub >>=-eq_some :
      (m : Option A) (f : A → Option B) {b : B}
      → (m >>= f) ≡ some b
      → (a : A) × (m ≡ some a) × (f a ≡ some b)
  >>=-eq_some (some a) f h = (a, refl, h)
  >>=-eq_some none f h = cc
