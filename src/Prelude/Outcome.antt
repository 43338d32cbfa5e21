-- ===== src/Prelude/Outcome.antt =====
-- Rust's `Result` and the two `?` operators, on `Result` and on `Option`.
use mathlib.Core.Path.{◌≡◌, refl}

pub data Result {ℓ κ} (E : Type κ) (A : Type ℓ) : Type (ℓ ⊔ κ) where
  ok : A → Result E A
  err : E → Result E A

module _ {ℓ κ ι} {E : Type κ} {A : Type ℓ} {B : Type ι} where
  infixl 5 ◌>>=◌
  abbrev pub ◌>>=◌ : Result E A → (A → Result E B) → Result E B
  ok a >>= f = f a
  err e >>= f = err e

  -- The value in the middle of a chain that ended well.
  abbrev pub Through : Result E A → (A → Result E B) → B → Type (ℓ ⊔ κ ⊔ ι)
  Through m f b = (middle : A) × (m ≡ ok middle) × (f middle ≡ ok b)

  pub >>=-Through : {b : B} (m : Result E A) (f : A → Result E B) → (m >>= f) ≡ ok b → Through m f b
  >>=-Through (err e) f ended = cc
  >>=-Through (ok middle) f ended = (middle, refl, ended)
