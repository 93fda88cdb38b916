-- ===== src/Extenders/ShiftRegister/Messages.antt =====
-- The messages to the leaf of the shift registers (leaf_pinextender_74595.h: `mqtt_receive`,
-- `parse_channel`, `status_pub`). In every branch the lines are driven before anything is published. With more than
-- 64 pins the picture of the pins for the log overruns its buffer; that is not represented.
pub mod Agreement
pub mod Naming
use stacx.Prelude.{
  ℕ, suc, zero, ◌+◌, ◌%◌, ◌==◌, Bool, true, false, not, ◌||◌, Option, none, some, [], ◌∷◌, ◌++◌,
  List, length, drop, get_elem?, set, map, if◌then◌else◌, ltb, leb,
}
use stacx.Prelude.Text.{Text, lit, text_eq, not_empty, starts_with, substring}
use stacx.Prelude.Int.{ℤ, pos, negsuc}
use stacx.Prelude.Number.{to_int}
use stacx.Prelude.Bits.{Bits, bits_of, number_of, show_hex, strtoul_hex}
use stacx.Fault.{Result, ok, fault, out_of_bounds, ◌>>=◌}
use stacx.Extenders.ShiftRegister.{Pin, Pins, Drive, write_pins}

-- A publication by mqtt_publish, or to the taps by publish.
pub data Notice : Type 0 where
  to_broker to_taps : Text → Text → Notice

-- `passed` says that Leaf::mqtt_receive is called, and decides whether the message is handled.
pub record Served : Type 0 where
  pub pins : Pins
  pub drives : List Drive
  pub notices : List Notice
  pub passed : Bool

-- The chunk of eight bits grows from bit `b`, and is printed at bit 0.
unfoldable pub hex_loop : ℕ → Bits → Text → Text
hex_loop zero chunk out = out
hex_loop (suc b) chunk out =
    let grown = set chunk (b % 8) true in
    let separator = if not_empty out then lit ":" else [] in
    let printed = hex_loop b (bits_of 8 0) (out ++ (separator ++ show_hex 2 (number_of grown))) in
    let carried = hex_loop b grown out in if b % 8 == 0 then printed else carried

unfoldable pub bits_out_to_hex : Pins → Text
unfolding hex_loop
bits_out_to_hex v = hex_loop (length v) (bits_of 8 0) []

abbrev pub bit_text : Bool → Text
bit_text b = if b then lit "1" else lit "0"

abbrev pub bit_rep_at : Option Pin → Result Text
bit_rep_at none = fault out_of_bounds
bit_rep_at (some p) = ok (bit_text p.value)

-- The test of the range lets the number of pins itself through.
unfoldable pub bit_rep : Pins → ℤ → Result Text
bit_rep pins (negsuc b) = ok (lit "x")
bit_rep pins (pos b) = if ltb (length pins) b then ok (lit "x") else bit_rep_at (get_elem? pins b)

unfoldable pub shift_status : Pins → List Notice
unfolding bits_out_to_hex
shift_status pins =
    to_broker (lit "status/bits_out") (bits_out_to_hex pins)
    ∷ map (λ (p : Pin). to_broker (lit "status/" ++ p.name) (bit_text p.value)) pins

-- The first pin with the name, from pin `c` on.
unfoldable pub find_channel : ℕ → Pins → Text → Option ℕ
find_channel c [] s = none
find_channel c (p ∷ ps) s =
    let later = find_channel (suc c) ps s in
    if not_empty p.name then (if text_eq s p.name then some c else later) else later

-- parse_channel
unfoldable pub channel : Pins → Text → ℤ
unfolding find_channel
channel pins s = elim (find_channel 0 pins s) [ none ↦ to_int s | some c ↦ pos c ]

-- pins[bit].value = f(pins[bit].value)
unfoldable pub change_pin : Pins → ℕ → (Bool → Bool) → Result Pins
change_pin pins bit f = elim (get_elem? pins bit) [
  | none ↦ fault out_of_bounds
  | some p ↦ ok (set pins bit (record p { value = f p.value }))
]

-- The bits are assigned one by one to the same pin, so that the last one, bit 7, stays.
unfoldable pub set_bytes : ℕ → Pins → Text → Result Pins
unfolding change_pin
set_bytes i pins [] = ok pins
set_bytes i pins (a ∷ []) =
    let high = leb 128 (strtoul_hex (a ∷ []) % 256) in change_pin pins i (λ old. high)
set_bytes i pins (a ∷ b ∷ payload) =
    let high = leb 128 (strtoul_hex (a ∷ b ∷ []) % 256) in
    change_pin pins i (λ old. high) >>= (λ changed. set_bytes (suc i) changed payload)

-- s.lastIndexOf('/') + 1
unfoldable pub after_last_slash : Text → ℕ
after_last_slash [] = 0
after_last_slash (c ∷ s) =
    let later = after_last_slash s in if ltb 0 later then suc later else if c == b'/' then 1 else 0

abbrev pub high_word : Text → Bool
high_word payload =
    text_eq payload (lit "on")
    || text_eq payload (lit "true")
    || text_eq payload (lit "high")
    || text_eq payload (lit "1")

-- The pins are written, and then the notices are sent.
abbrev pub written : List Notice → Pins → Served
written notices pins = record {
  pins = pins;
  drives = write_pins pins;
  notices = notices;
  passed = false;
}

abbrev pub unchanged : Bool → List Notice → Pins → Served
unchanged passed notices pins = record {
  pins = pins;
  drives = [];
  notices = notices;
  passed = passed;
}

-- "cmd/set", "cmd/toggle", "cmd/unset" and "cmd/clear"; the number is compared as it is, below zero too.
unfoldable pub change_channel : Pins → ℤ → (Bool → Bool) → Result Served
unfolding change_pin write_pins shift_status
change_channel pins (negsuc bit) f = fault out_of_bounds
change_channel pins (pos bit) f =
    if ltb bit (length pins)
    then change_pin pins bit f >>= (λ changed. ok (written (shift_status changed) changed))
    else ok (unchanged false [] pins)

-- "set/pin/NAME": the name is cut at the last slash of the payload.
unfoldable pub set_pin : Pins → ℤ → Text → Bool → Result Served
unfolding change_pin write_pins
set_pin pins (negsuc bit) name value = fault out_of_bounds
set_pin pins (pos bit) name value = change_pin pins bit (λ old. value) >>= (λ changed. ok (
    written (to_taps (lit "status/" ++ name) (if value then lit "on" else lit "off") ∷ []) changed))

-- The name in the topic, without the eight characters of "set/pin/".
abbrev pub topic_frag : Text → Text → Text
topic_frag topic payload =
    let rest = drop 8 topic in substring rest (after_last_slash payload) (length rest)

-- mqtt_receive; "get/pin" goes on to the class Leaf as well.
unfoldable pub shift_receive : Pins → Text → Text → Result Served
unfolding bit_rep channel set_pin set_bytes change_channel
shift_receive pins topic payload =
    if text_eq topic (lit "get/pin")
    then bit_rep pins (channel pins payload)
      >>= (λ shown. ok (unchanged true (to_broker (lit "status/" ++ payload) shown ∷ []) pins))
    else if text_eq topic (lit "get/pins")
    then ok (unchanged false (to_broker (lit "status/pins") (bits_out_to_hex pins) ∷ []) pins)
    else if starts_with topic (lit "set/pin/")
    then set_pin pins (channel pins (topic_frag topic payload)) (topic_frag topic payload)
        (high_word payload)
    else if text_eq topic (lit "set/pins")
    then (if ltb 0 (length pins) then set_bytes 0 pins payload else ok pins)
      >>= (λ changed. ok (written [] changed))
    else if text_eq topic (lit "cmd/set")
    then change_channel pins (channel pins payload) (λ old. true)
    else if text_eq topic (lit "cmd/toggle")
    then change_channel pins (channel pins payload) not
    else if text_eq topic (lit "cmd/unset") || text_eq topic (lit "cmd/clear")
    then change_channel pins (channel pins payload) (λ old. false)
    else ok (unchanged true [] pins)
