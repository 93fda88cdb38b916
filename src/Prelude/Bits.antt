-- ===== src/Prelude/Bits.antt =====
-- Words as lists of bits, the lowest first, and numbers in base 16: %02x, %04x and `strtoul`.
use Prim.Native.Nat.{ℕ, zero, suc, ◌+◌, ◌-◌, ◌*◌, ◌/◌, ◌%◌, ◌^◌, ◌<◌}
use mathlib.Core.Path.{◌≡◌, refl, ap}
use mathlib.Core.Bool.{Bool, true, false, not, ◌&&◌, ◌||◌}
use mathlib.Core.Option.{Option, none, some}
use mathlib.Core.List.{List, [], ◌∷◌, ◌++◌, map}
use native.Mathlib.Omega.{arith}
use native.Mathlib.Nat.{pow-suc}
use stacx.Prelude.Tests.{◌==◌, leb, ltb, if◌then◌else◌}
use stacx.Prelude.Lists.{length, set}
use stacx.Prelude.Text.{Text}
use stacx.Prelude.Number.{is_digit, skip_space}

abbrev pub Bits : Type 0
Bits = List Bool

-- The bits of a number in a word of `w` bits.
abbrev pub bits_of : ℕ → ℕ → Bits
bits_of zero n = []
bits_of (suc w) n = (n % 2 == 1) ∷ bits_of w (n / 2)

abbrev pub number_of : Bits → ℕ
number_of [] = 0
number_of (b ∷ bits) = (if b then 1 else 0) + 2 * number_of bits

-- ^
abbrev pub xor : Bool → Bool → Bool
xor a b = if b then not a else a

abbrev pub bits_xor : Bits → Bits → Bits
bits_xor [] ys = []
bits_xor (a ∷ xs) [] = a ∷ xs
bits_xor (a ∷ xs) (b ∷ ys) = xor a b ∷ bits_xor xs ys

-- ~
abbrev pub bits_not : Bits → Bits
bits_not bits = map not bits

-- bits & (1 << c)
abbrev pub bit_at : Bits → ℕ → Bool
bit_at [] c = false
bit_at (b ∷ bits) zero = b
bit_at (b ∷ bits) (suc c) = bit_at bits c

abbrev hex_digit : ℕ → ℕ
hex_digit n = if ltb n 10 then 48 + n else 87 + n

-- The last `k` digits in base 16.
abbrev pub show_hex : ℕ → ℕ → Text
show_hex zero n = []
show_hex (suc k) n = show_hex k (n / 16) ++ (hex_digit (n % 16) ∷ [])

-- The digits in capitals.
abbrev pub show_hex_capitals : ℕ → ℕ → Text
show_hex_capitals k n = map (λ d. if leb 97 d then d - 32 else d) (show_hex k n)

abbrev hex_value : ℕ → Option ℕ
hex_value c =
    if is_digit c
    then some (c - 48)
    else if leb 97 c && leb c 102
    then some (c - 87)
    else if leb 65 c && leb c 70
    then some (c - 55)
    else none

parse_hex : ℕ → Text → ℕ
parse_hex acc [] = acc
parse_hex acc (c ∷ s) = elim (hex_value c) [ none ↦ acc | some d ↦ parse_hex (acc * 16 + d) s ]

starts_with_hex : Text → Bool
starts_with_hex [] = false
starts_with_hex (c ∷ s) = elim (hex_value c) [ none ↦ false | some d ↦ true ]

-- A leading 0x is skipped if a digit follows it.
skip_prefix : Text → Text
unfolding starts_with_hex
skip_prefix [] = []
skip_prefix (a ∷ []) = a ∷ []
skip_prefix (a ∷ b ∷ s) =
    if a == b'0' && (b == b'x' || b == b'X') && starts_with_hex s then s else a ∷ b ∷ s

-- The numbers that do not fit give the greatest `unsigned long`; a minus sign negates in 32 bits.
saturate : Bool → ℕ → ℕ
saturate negative n =
    if leb n (2 ^ 32 - 1) then (if negative then (2 ^ 32 - n) % 2 ^ 32 else n) else 2 ^ 32 - 1

-- strtoul(s, NULL, 16)
unfoldable pub strtoul_hex : Text → ℕ
unfolding skip_space skip_prefix parse_hex saturate
strtoul_hex s = by_sign (skip_space s)
  where
    by_sign : Text → ℕ
    by_sign [] = 0
    by_sign (c ∷ t) =
        if c == b'-'
        then saturate true (parse_hex 0 (skip_prefix t))
        else if c == b'+'
        then saturate false (parse_hex 0 (skip_prefix t))
        else saturate false (parse_hex 0 (skip_prefix (c ∷ t)))

pub xor_twice : (a b : Bool) → xor (xor a b) b ≡ a
xor_twice true true = refl
xor_twice true false = refl
xor_twice false true = refl
xor_twice false false = refl

pub length-bits_of : (w n : ℕ) → length (bits_of w n) ≡ w
length-bits_of zero n = refl
length-bits_of (suc w) n = ap suc (length-bits_of w (n / 2))

pub number_of-bits_of : (w n : ℕ) → n < 2 ^ w → number_of (bits_of w n) ≡ n
number_of-bits_of zero n h = ground arith
number_of-bits_of (suc w) n h =
    let below : n / 2 < 2 ^ w = omega (arith, pow-suc 2 w) in
    ground (arith, number_of-bits_of w (n / 2) below)

pub length-bits_xor : (xs ys : Bits) → length (bits_xor xs ys) ≡ length xs
length-bits_xor [] ys = refl
length-bits_xor (a ∷ xs) [] = refl
length-bits_xor (a ∷ xs) (b ∷ ys) = ap suc (length-bits_xor xs ys)

pub bit_at-bits_xor :
    (xs ys : Bits) (c : ℕ)
    → length xs ≡ length ys
    → bit_at (bits_xor xs ys) c ≡ xor (bit_at xs c) (bit_at ys c)
bit_at-bits_xor [] [] c h = refl
bit_at-bits_xor [] (b ∷ ys) c h = absurd (omega arith)
bit_at-bits_xor (a ∷ xs) [] c h = absurd (omega arith)
bit_at-bits_xor (a ∷ xs) (b ∷ ys) zero h = refl
bit_at-bits_xor (a ∷ xs) (b ∷ ys) (suc c) h = bit_at-bits_xor xs ys c (omega arith)

pub bit_at-set_self :
    (bits : Bits) (c : ℕ) (v : Bool) → c < length bits → bit_at (set bits c v) c ≡ v
bit_at-set_self [] c v h = absurd (omega arith)
bit_at-set_self (b ∷ bits) zero v h = refl
bit_at-set_self (b ∷ bits) (suc c) v h = bit_at-set_self bits c v (omega arith)
