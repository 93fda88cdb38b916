-- ===== src/Extenders/ShiftRegister.antt =====
-- The output pins of a chain of 74595 shift registers (leaf_pinextender_74595.h), up to the lines
-- that are driven; the delays between them and the log lines are left out. `pin_count` is the length
-- of the pin vector.
pub mod Chip
pub mod Shifting
pub mod Messages
pub mod Tests
use stacx.Prelude.{
  ℕ, suc, zero, ◌+◌, ◌-◌, ◌%◌, ◌==◌, Bool, true, false, not, ◌||◌, ◌&&◌, Option, none, some, [],
  ◌∷◌, ◌++◌, List, length, get_elem?, set, drop, take, map, if◌then◌else◌,
}
use stacx.Prelude.Text.{Text, lit, text_eq, not_empty, starts_with, index_of}
use stacx.Prelude.Int.{ℤ, pos}
use stacx.Prelude.Number.{show_nat, to_int}

-- pin_state_word
pub record Pin : Type 0 where
  pub value : Bool
  pub invert : Bool
  pub name : Text

abbrev pub Pins : Type 0
Pins = List Pin

-- The lines to the chip: data, shift clock, load strobe, master reset and output enable.
pub data Line : Type 0 where
  ds shcp stcp nmr noe : Line

abbrev pub Drive : Type 0
Drive = Line × Bool

-- value ^ invert
abbrev pub electrical : Pin → Bool
electrical p = if p.invert then not p.value else p.value

unfoldable pub shift_out_one_bit : Bool → List Drive
shift_out_one_bit b = (ds, b) ∷ (shcp, true) ∷ (shcp, false) ∷ []

unfoldable pub load_shifted_bits : List Drive
load_shifted_bits = (stcp, true) ∷ (stcp, false) ∷ []

unfoldable pub set_up_strobes : List Drive
set_up_strobes = (stcp, false) ∷ (shcp, false) ∷ []

-- while (b%8) b++; the fuel bounds the rounds.
unfoldable pub round_up : ℕ → ℕ → ℕ
round_up zero b = b
round_up (suc fuel) b = let more = round_up fuel (suc b) in if b % 8 == 0 then b else more

-- Past the pins the bit is low.
unfoldable pub bit_of : Option Pin → Bool
bit_of none = false
bit_of (some p) = electrical p

-- while (b --> 0)
unfoldable pub shift_from : Pins → ℕ → List Drive
unfolding shift_out_one_bit bit_of
shift_from v zero = []
shift_from v (suc b) = shift_out_one_bit (bit_of (get_elem? v b)) ++ shift_from v b

unfoldable pub write_pins : Pins → List Drive
unfolding set_up_strobes round_up shift_from load_shifted_bits
write_pins v = set_up_strobes ++ (shift_from v (round_up 8 (length v)) ++ load_shifted_bits)

-- The pins before they are named.
unfoldable pub plain_pins : ℕ → ℕ → Pins
plain_pins i zero = []
plain_pins i (suc n) =
    (record { value = false; invert = false; name = show_nat i }) ∷ plain_pins (suc i) n

-- A name up to the comma, with what follows it.
abbrev pub next_name : Option ℕ → Text → Text × Text
next_name none names = (names, [])
next_name (some i) names = (take i names, drop (suc i) names)

-- The pins take their names in order, as long as there are any; a leading ~ inverts the pin.
unfoldable pub name_pins : Pins → Text → Pins
name_pins [] names = []
name_pins (p ∷ ps) names =
    let inverted = starts_with names (lit "~") in
    let rest = if inverted then drop 1 names else names in
    let (name, others) = next_name (index_of rest (b',')) rest in
    let later = name_pins ps others in
    if not_empty names then (record p { invert = inverted; name = name }) ∷ later else p ∷ ps

-- The constructor; the number of pins is a byte.
unfoldable pub make_pins : ℕ → Text → Pins
unfolding plain_pins name_pins
make_pins npins names = name_pins (plain_pins 0 (npins % 256)) names

-- setup, once the data, clock and strobe lines are configured.
unfoldable pub set_up : Bool → Bool → Pins → List Drive
unfolding write_pins
set_up has_noe has_nmr pins =
    (ds, false)
    ∷ (shcp, false)
    ∷ (stcp, false)
    ∷ ((if has_noe then (noe, false) ∷ [] else [])
        ++ (if has_nmr then (nmr, false) ∷ (nmr, true) ∷ [] else write_pins pins))
