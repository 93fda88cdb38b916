-- ===== src/Prelude/Number.antt =====
-- Decimal numbers in texts: `String(n)`, `String::toInt` and `strtoul`.
use Prim.Native.Nat.{ℕ, zero, suc, ◌+◌, ◌-◌, ◌*◌, ◌/◌, ◌%◌, ◌^◌, ◌≤◌, ◌<◌, min}
use mathlib.Core.Path.{◌≡◌, refl}
use mathlib.Core.Bool.{Bool, true, ◌&&◌, ◌||◌}
use mathlib.Core.List.{[], ◌∷◌, ◌++◌, append_assoc, append-nil}
use native.Mathlib.Omega.{arith}
use stacx.Prelude.Tests.{◌==◌, leb, ltb, if◌then◌else◌, Bool-cases}
use mathlib.Core.Logic.{inl, inr}
use native.Mathlib.Nat.{pow-suc}
use stacx.Prelude.Text.{Text, not_empty}
use stacx.Prelude.Lists.{length, length-append}
use stacx.Prelude.Int.{ℤ, pos, negsuc, clamp_long, to_int32}

abbrev pub is_digit : ℕ → Bool
is_digit c = leb 48 c && leb c 57

abbrev pub is_space : ℕ → Bool
is_space c = c == 32 || (leb 9 c && leb c 13)

-- The digits of `n`, most significant first; the fuel bounds their number.
digits : ℕ → ℕ → Text
digits zero n = []
digits (suc f) n =
    let rest = digits f (n / 10) in (if ltb n 10 then [] else rest) ++ ((48 + n % 10) ∷ [])

-- String(n)
unfoldable pub show_nat : ℕ → Text
unfolding digits
show_nat n = digits (suc n) n

unfoldable pub show_int : ℤ → Text
unfolding show_nat
show_int (pos n) = show_nat n
show_int (negsuc n) = b'-' ∷ show_nat (suc n)

-- The leading digits of a text, after those already read.
parse_nat : ℕ → Text → ℕ
parse_nat acc [] = acc
parse_nat acc (c ∷ s) =
    let rest = parse_nat (acc * 10 + (c - 48)) s in if is_digit c then rest else acc

unfoldable pub skip_space : Text → Text
skip_space [] = []
skip_space (c ∷ s) = let rest = skip_space s in if is_space c then rest else c ∷ s

negate : ℕ → ℤ
negate zero = pos 0
negate (suc n) = negsuc n

signed : Text → ℤ
unfolding negate
signed [] = pos 0
signed (c ∷ s) =
    if c == b'-'
    then negate (parse_nat 0 s)
    else if c == b'+'
    then pos (parse_nat 0 s)
    else pos (parse_nat 0 (c ∷ s))

-- s.toInt(): `strtol` in base 10
unfoldable pub to_int : Text → ℤ
unfolding parse_nat skip_space signed
to_int s = clamp_long (signed (skip_space s))

-- A number negated in `unsigned long`, as `strtoul` does after a minus sign.
wrap_ulong : ℤ → ℕ
wrap_ulong (pos n) = min n (2 ^ 32 - 1)
wrap_ulong (negsuc n) = if ltb n (2 ^ 32 - 1) then 2 ^ 32 - 1 - n else 2 ^ 32 - 1

-- strtoul(s, NULL, 10)
unfoldable pub strtoul : Text → ℕ
unfolding parse_nat skip_space signed wrap_ulong
strtoul s = wrap_ulong (signed (skip_space s))

parse_nat-digits :
    (f n : ℕ) (rest : Text) → n < f → parse_nat 0 (digits f n ++ rest) ≡ parse_nat n rest
unfolding digits parse_nat
parse_nat-digits zero n rest h = elim h [ ]
parse_nat-digits (suc f) n rest h = elim (Bool-cases (ltb n 10)) [
  | inl small ↦ rw small (ground arith)
  | inr big ↦ rw big (
      rw append_assoc
        (rw (parse_nat-digits f (n / 10) ((48 + n % 10) ∷ rest) (ground arith)) (ground arith)))
]

-- What is printed begins with a digit.
record StartsWithDigit (s : Text) : Type 0 where
  first : ℕ
  rest : Text
  shape : s ≡ first ∷ rest
  low : 48 ≤ first
  high : first ≤ 57

digits-StartsWithDigit : (f n : ℕ) → n < f → StartsWithDigit (digits f n)
unfolding digits
digits-StartsWithDigit zero n h = elim h [ ]
digits-StartsWithDigit (suc f) n h = elim (Bool-cases (ltb n 10)) [
  | inl small ↦ record {
    first = 48 + n % 10;
    rest = [];
    shape = rw small;
    low = omega arith;
    high = omega arith;
  }
  | inr big ↦
      let d = digits-StartsWithDigit f (n / 10) (ground arith) in
      record {
        first = d.first;
        rest = d.rest ++ ((48 + n % 10) ∷ []);
        shape = rw (big, d.shape);
        low = d.low;
        high = d.high;
      }
]

signed-digits : (s : Text) → StartsWithDigit s → signed (skip_space s) ≡ pos (parse_nat 0 s)
unfolding signed skip_space
signed-digits s d = rw d.shape (ground (arith, d.low, d.high))

parse_nat-show_nat : (n : ℕ) → parse_nat 0 (show_nat n) ≡ n
unfolding show_nat parse_nat
parse_nat-show_nat n =
    rw (← append-nil (digits (suc n) n)) (parse_nat-digits (suc n) n [] (omega arith))

-- The values of a `long` of 32 bits.
abbrev pub IsLong : ℤ → Type 0
IsLong (pos n) = n < 2147483648
IsLong (negsuc n) = n < 2147483648

pub to_int-show_int : (z : ℤ) → IsLong z → to_int (show_int z) ≡ z
unfolding to_int show_int
to_int-show_int (pos n) h =
    rw
      (
        signed-digits (show_nat n) (digits-StartsWithDigit (suc n) n (omega arith)),
        parse_nat-show_nat n,
      )
      (ground arith)
to_int-show_int (negsuc n) h = rw (parse_nat-show_nat (suc n)) (ground arith)

pub strtoul-show_nat : (n : ℕ) → n < 2 ^ 32 → strtoul (show_nat n) ≡ n
unfolding strtoul
strtoul-show_nat n h =
    rw
      (
        signed-digits (show_nat n)
            (unfold show_nat in digits-StartsWithDigit (suc n) n (omega arith)),
        parse_nat-show_nat n,
      )
      (ground arith)

-- `strtoul` takes a negative number back to the unsigned one that was written as it.
pub strtoul-to_int32 : (n : ℕ) → n < 2 ^ 32 → strtoul (show_int (to_int32 n)) ≡ n
unfolding strtoul show_int
strtoul-to_int32 n h = elim (Bool-cases (ltb n (2 ^ 31))) [
  | inl small ↦ rw small (strtoul-show_nat n h)
  | inr large ↦ rw (large, parse_nat-show_nat (suc (2 ^ 32 - 1 - n))) (ground arith)
]

pub to_int-show_nat : (n : ℕ) → n < 2147483648 → to_int (show_nat n) ≡ pos n
unfolding show_int
to_int-show_nat n h = to_int-show_int (pos n) h

-- A number below 10 ^ k, for a positive k, has at most k digits.
length-digits-le : (k f n : ℕ) → n < 10 ^ suc k → length (digits f n) ≤ suc k
unfolding digits
length-digits-le k zero n h = omega arith
length-digits-le zero (suc f) n h = elim (Bool-cases (ltb n 10)) [
  | inl small ↦ rw small (omega arith)
  | inr big ↦ absurd (ground arith)
]
length-digits-le (suc k) (suc f) n h = elim (Bool-cases (ltb n 10)) [
  | inl small ↦ rw small (omega arith)
  | inr big ↦
      rw (big, length-append (digits f (n / 10)) ((48 + n % 10) ∷ []))
        (omega (arith, length-digits-le k f (n / 10) (div-lt n k h)))
]
  where
    div-lt : (m j : ℕ) → m < 10 ^ suc (suc j) → m / 10 < 10 ^ suc j
    div-lt m j g = omega (arith, rw (pow-suc 10 (suc j)) at g)

pub length-show_nat-le : (n : ℕ) → n < 2 ^ 32 → length (show_nat n) ≤ 10
unfolding show_nat
length-show_nat-le n h = length-digits-le 9 (suc n) n (omega arith)

-- What is printed is not the empty text.
pub not_empty-show_nat : (n : ℕ) → not_empty (show_nat n) ≡ true
unfolding show_nat
not_empty-show_nat n = rw (digits-StartsWithDigit (suc n) n (omega arith)).shape

pub not_empty-show_int : (z : ℤ) → not_empty (show_int z) ≡ true
unfolding show_int
not_empty-show_int (pos n) = not_empty-show_nat n
not_empty-show_int (negsuc n) = refl

pub length-show_int-le : (n : ℕ) → n < 2 ^ 32 → length (show_int (to_int32 n)) ≤ 11
unfolding show_int
length-show_int-le n h = elim (Bool-cases (ltb n (2 ^ 31))) [
  | inl small ↦ rw small (omega (arith, length-show_nat-le n h))
  | inr large ↦ rw large (omega (arith, length-show_nat-le (suc (2 ^ 32 - 1 - n)) (ground arith)))
]
