-- ===== src/Prelude/Found.antt =====
-- Go's pair of a value and an error of which only the text is used.
use mathlib.Core.Path.{◌≡◌, refl}
use mathlib.Core.Logic.{◌⊎◌, inl, inr}
use Prim.Native.String.{String}

-- A value, or the text of an error.
pub data Found {ℓ} (A : Type ℓ) : Type ℓ where
  found : A → Found A
  failed : String → Found A

pub Found-cases :
    {A : Type 0} (r : Found A) → ((a : A) × (r ≡ found a)) ⊎ ((e : String) × (r ≡ failed e))
Found-cases (found a) = inl (a, refl)
Found-cases (failed e) = inr (e, refl)

infixl 5 ◌>>=◌ ◌>>◌
abbrev pub ◌>>=◌ : {A B : Type 0} → Found A → (A → Found B) → Found B
found a >>= f = f a
failed e >>= f = failed e

abbrev pub ◌>>◌ : {B : Type 0} → Found (Unit {0}) → Found B → Found B
m >> k = m >>= λ _. k
