-- ===== src/Fault.antt =====
-- What the code does that C++ leaves undefined, as a value: the result of an operation that may read
-- through a null pointer, read a variable as another type than its own, read or write outside an
-- array, shift by a negative number or by more than the width, or leave the range of an int.
use stacx.Prelude.{◌≡◌, refl, ap, arith}

pub data Fault : Type 0 where
  null_pointer wrong_type unterminated out_of_bounds bad_shift int_overflow : Fault

pub data Result {ℓ} (A : Type ℓ) : Type ℓ where
  fault : Fault → Result A
  ok : A → Result A

module _ {ℓ} {A : Type ℓ} where
  value_of : A → Result A → A
  value_of other (fault why) = other
  value_of other (ok value) = value

  pub ok-injective : {a b : A} → ok a ≡ ok b → a ≡ b
  unfolding value_of
  ok-injective {a} same = ap (value_of a) same

  module _ {κ} {B : Type κ} where
    infixl 5 ◌>>=◌
    -- The first fault stops the operation.
    abbrev pub ◌>>=◌ : Result A → (A → Result B) → Result B
    fault why >>= next = fault why
    ok value >>= next = next value

    pub >>=-eq-ok :
        (first : Result A) (next : A → Result B) {final : B}
        → (first >>= next) ≡ ok final
        → (value : A) × (first ≡ ok value) × (next value ≡ ok final)
    >>=-eq-ok (fault why) next h = ground arith
    >>=-eq-ok (ok value) next h = (value, refl, h)
