-- ===== src/Prelude/Int.antt =====
-- Signed integers over the native numbers, and the conversions of C between the integer types.
use Prim.Native.Nat.{ℕ, ◌-◌, ◌%◌, ◌^◌, min}
use mathlib.Core.Bool.{Bool, true, false}
use stacx.Prelude.Tests.{◌==◌, leb, ltb, if◌then◌else◌}

-- `negsuc n` is -(n + 1).
pub data ℤ : Type 0 where
  pos : ℕ → ℤ
  negsuc : ℕ → ℤ

abbrev pub int_eq : ℤ → ℤ → Bool
int_eq (pos a) (pos b) = a == b
int_eq (negsuc a) (negsuc b) = a == b
int_eq _ _ = false

abbrev pub int_leb : ℤ → ℤ → Bool
int_leb (pos a) (pos b) = leb a b
int_leb (pos a) (negsuc b) = false
int_leb (negsuc a) (pos b) = true
int_leb (negsuc a) (negsuc b) = leb b a

-- (byte)x
abbrev pub to_byte : ℤ → ℕ
to_byte (pos n) = n % 256
to_byte (negsuc n) = 255 - n % 256

-- (unsigned long)x, of 32 bits
abbrev pub to_ulong : ℤ → ℕ
to_ulong (pos n) = n % 2 ^ 32
to_ulong (negsuc n) = 2 ^ 32 - 1 - n % 2 ^ 32

-- `strtol` answers the nearest `long` (32 bits) when the number does not fit.
abbrev pub clamp_long : ℤ → ℤ
clamp_long (pos n) = pos (min n 2147483647)
clamp_long (negsuc n) = negsuc (min n 2147483647)

-- (int)x of an unsigned long, both of 32 bits
abbrev pub to_int32 : ℕ → ℤ
to_int32 n = if ltb n (2 ^ 31) then pos n else negsuc (2 ^ 32 - 1 - n)
