-- ===== src/Extenders/Port.antt =====
-- The eight quasi-bidirectional pins of a PCF8574 (leaf_pinextender_pcf8574.h). A byte is the list of its bits.
-- What the bus answers is a parameter; one message writes at most once and then publishes.
pub mod Messages
pub mod Syncing
pub mod Tests
use stacx.Prelude.{
  ℕ, suc, zero, ◌+◌, ◌%◌, ◌==◌, Bool, true, false, not, ◌&&◌, ◌||◌, Option, none, some, [], ◌∷◌,
  ◌++◌, List, length, get_elem?, set, drop, take, map, if◌then◌else◌, ltb, is_some,
}
use stacx.Prelude.Text.{Text, lit, text_eq, not_empty, starts_with, index_of, substring}
use stacx.Prelude.Int.{ℤ, pos, negsuc}
use stacx.Prelude.Number.{show_nat, to_int}
use stacx.Prelude.Bits.{
  Bits, bits_of, number_of, bits_xor, bits_not, bit_at, xor, show_hex, show_hex_capitals,
  strtoul_hex,
}
use stacx.Fault.{Result, ok, fault, out_of_bounds, bad_shift, ◌>>=◌}
use stacx.Words.{parse_bool}
use stacx.Extenders.ShiftRegister.Messages.{Notice, to_broker, to_taps, after_last_slash, high_word}

pub record Port : Type 0 where
  pub bits_out : Bits
  pub bits_in : Bits
  pub last_input_state : Bits
  pub bits_inverted : Bits
  pub quiet : Bool
  pub found : Bool
  pub publish_bits : Bool
  pub pin_quiet : List Bool
  pub pin_names : List Text

-- The answers of the bus: whether it takes a byte and the chip acknowledges it (the code ignores the result of
-- endTransmission, so that a byte that is taken and not acknowledged is not represented), and the byte that it gives, if it gives one in time.
pub record Bus : Type 0 where
  pub accepts : Bool
  pub gives : Option ℕ

-- `sent` is the pattern that went to the chip, if any.
pub record PortServed : Type 0 where
  pub port : Port
  pub sent : Option Bits
  pub notices : List Notice
  pub passed : Bool

abbrev none_quiet : ℕ → List Bool
none_quiet zero = []
none_quiet (suc n) = false ∷ none_quiet n

abbrev pub no_names : ℕ → List Text
no_names zero = []
no_names (suc n) = [] ∷ no_names n

abbrev contains_char : Text → ℕ → Bool
contains_char s c = is_some (index_of s c)

-- The options after the colon, unless it stands at the start: q is quiet, v is inverted.
abbrev cut_options : Option ℕ → Text → Text × Text
cut_options none name = (name, [])
cut_options (some zero) name = (name, [])
cut_options (some (suc i)) name = (take (suc i) name, drop (suc (suc i)) name)

abbrev pub cut_name : Option ℕ → Text → Text × Text
cut_name none names = (names, [])
cut_name (some i) names = (take i names, drop (suc i) names)

-- A name of pin `c`; the ~ that inverts a pin stays in its name.
unfoldable pub name_pin : Port → ℕ → Text → Port
name_pin p c whole =
    let (name, opts) = cut_options (index_of whole (b':')) whole in
    let inverts = starts_with whole (lit "~") || contains_char opts (b'v') in
    record p {
      bits_inverted = if inverts then set p.bits_inverted c true else p.bits_inverted;
      pin_quiet = if contains_char opts (b'q') then set p.pin_quiet c true else p.pin_quiet;
      pin_names = set p.pin_names c name;
    }

-- The rounds of the loop that are left, from pin `c` on.
unfoldable pub name_from : ℕ → ℕ → Text → Port → Port
unfolding name_pin
name_from zero c names p = p
name_from (suc k) c names p =
    let (name, others) = cut_name (index_of names (b',')) names in
    let named = name_from k (suc c) others (name_pin p c name) in
    if not_empty names then named else p

unfoldable pub set_pin_names : Text → Port → Port
unfolding name_from
set_pin_names names p =
    name_from 8 0 names (record p { pin_quiet = none_quiet 8; pin_names = no_names 8 })

-- The constructor; pins 1 and 2 are inverted at first.
unfoldable pub make_port : Text → ℕ → Bool → Port
unfolding set_pin_names
make_port names direction be_quiet = set_pin_names names (record {
  bits_out = bits_of 8 direction;
  bits_in = bits_of 8 direction;
  last_input_state = bits_of 8 direction;
  bits_inverted = bits_of 8 6;
  quiet = be_quiet;
  found = false;
  publish_bits = true;
  pin_quiet = [];
  pin_names = [];
})

-- A byte that the bus does not take is not recorded.
unfoldable pub write_port : Bus → Bits → Port → Port × Option Bits
write_port bus bits p =
    if bus.accepts
    then (record p { bits_out = bits }, some (bits_xor bits p.bits_inverted))
    else (p, none)

-- setup, once the chip has answered
unfoldable pub set_up_port : Bus → Port → Port × Option Bits
unfolding write_port
set_up_port bus p = write_port bus (bits_not p.bits_inverted) (record p { found = true })

-- start
unfoldable pub start_port : Bus → Port → Port × Option Bits
unfolding write_port
start_port bus p = write_port bus p.bits_out p

abbrev pub same_bits : Bits → Bits → Bool
same_bits a b = number_of a == number_of b

-- The port, and whether its input has changed.
unfoldable pub poll : Bus → Port → Port × Bool
poll bus p = elim bus.gives [
  | none ↦ (p, false)
  | some byte ↦
      let bits = bits_xor (bits_of 8 byte) p.bits_inverted in
      if same_bits bits p.bits_in then (p, false) else (record p { bits_in = bits }, true)
]

abbrev bit_char : Bool → ℕ
bit_char b = if b then b'1' else b'0'

-- The highest bit first, with a dash after four.
unfoldable pub draw_bits : Bits → Text
draw_bits bits =
    let bit = λ (i : ℕ). bit_char (bit_at bits i) in
    bit 7 ∷ bit 6 ∷ bit 5 ∷ bit 4 ∷ b'-' ∷ bit 3 ∷ bit 2 ∷ bit 1 ∷ bit 0 ∷ []

abbrev pub name_or_number : Option Text → ℕ → Text
name_or_number none c = show_nat c
name_or_number (some name) c = if not_empty name then name else show_nat c

-- The pins from `c` on that have changed, or all of them for the shell.
unfoldable pub pin_notices : Bool → Port → Bits → ℕ → ℕ → List Notice
pin_notices shell p last c zero = []
pin_notices shell p last c (suc k) =
    let changed = xor (bit_at last c) (bit_at p.bits_in c) in
    let rest = pin_notices shell p last (suc c) k in
    if shell || (not p.quiet && changed)
    then to_broker (lit "status/" ++ name_or_number (get_elem? p.pin_names c) c)
        (if bit_at p.bits_in c then lit "1" else lit "0")
      ∷ rest
    else rest

abbrev bits_notices : Port → List Notice
bits_notices p =
    if p.publish_bits
    then to_broker (lit "status/bits_in") (show_hex 2 (number_of p.bits_in))
      ∷ to_taps (lit "status/pins_in") (draw_bits p.bits_in)
      ∷ to_broker (lit "status/bits_out") (show_hex 2 (number_of p.bits_out))
      ∷ to_taps (lit "status/pins_out") (draw_bits p.bits_out)
      ∷ []
    else []

-- status_pub; `shell` is pubsub_loopback.
unfoldable pub port_status : Bool → Port → Port × List Notice
unfolding pin_notices draw_bits
port_status shell p =
    if p.found
    then (
      record p { last_input_state = p.bits_in },
      bits_notices p ++ pin_notices shell p p.last_input_state 0 8,
    )
    else (p, [])

-- The first named pin with the name; the search ends at the first pin without one.
unfoldable pub find_pin : ℕ → List Text → Text → Option ℕ
find_pin c [] s = none
find_pin c (name ∷ names) s =
    let later = find_pin (suc c) names s in
    if not_empty name then (if text_eq s name then some c else later) else none

unfoldable pub port_channel : Port → Text → ℤ
unfolding find_pin
port_channel p s = elim (find_pin 0 p.pin_names s) [ none ↦ to_int s | some c ↦ pos c ]

-- 1 << bit, as the place of the bit
abbrev pub shift_left : ℤ → Result ℕ
shift_left (negsuc bit) = fault bad_shift
shift_left (pos bit) = if ltb bit 32 then ok bit else fault bad_shift

-- pin_quiet[bit], which is read for the log
abbrev pub read_quiet : Port → ℤ → Result Bool
read_quiet p (negsuc bit) = fault out_of_bounds
read_quiet p (pos bit) = elim (get_elem? p.pin_quiet bit) [
  | none ↦ fault out_of_bounds
  | some q ↦ ok q
]
