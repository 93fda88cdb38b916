-- ===== src/Extenders/Expander.antt =====
-- The sixteen pins of an MCP23017 (leaf_pinextender_mcp23107.h). A word is the list of its bits. What the bus
-- answers is a parameter; one message writes at most once and then publishes.
pub mod Agreement
pub mod Tests
use stacx.Prelude.{
  ℕ, suc, zero, ◌+◌, ◌*◌, Bool, true, false, not, ◌&&◌, ◌||◌, Option, none, some, [], ◌∷◌, ◌++◌,
  List, get_elem?, set, take, if◌then◌else◌,
}
use stacx.Prelude.Text.{Text, lit, text_eq, not_empty, starts_with, index_of}
use stacx.Prelude.Int.{ℤ, pos}
use stacx.Prelude.Number.{show_nat, to_int}
use stacx.Prelude.Bits.{Bits, bits_of, number_of, bit_at, xor, show_hex, strtoul_hex}
use stacx.Fault.{Result, ok, ◌>>=◌}
use stacx.Extenders.ShiftRegister.Messages.{Notice, to_broker, high_word}
use stacx.Extenders.Port.{find_pin, cut_name, no_names, same_bits, name_or_number, shift_left}

-- The registers that the leaf writes: REG_GPIOA, REG_IODIRA, REG_IOPOLA and REG_GPPUA.
pub data Register : Type 0 where
  gpio iodir iopol gppu : Register

-- `last_input_state` is static in the source, so that all the expanders share it: here there is one.
pub record Expander : Type 0 where
  pub leaf_name : Text
  pub bits_dir : Bits
  pub bits_out : Bits
  pub bits_in : Bits
  pub bits_inverted : Bits
  pub bits_pullup : Bits
  pub pin_names : List Text
  pub found : Bool
  pub last_input_state : Bits

-- Whether the bus takes a whole write, and the two bytes that it gives, if it gives them in time.
pub record WordBus : Type 0 where
  pub takes : Bool
  pub gives_low : Option ℕ
  pub gives_high : Option ℕ

abbrev pub WordSent : Type 0
WordSent = Option (Register × Bits)

-- `failed` is only logged.
pub record ExpanderServed : Type 0 where
  pub expander : Expander
  pub sent : WordSent
  pub notices : List Notice
  pub failed : Bool
  pub passed : Bool

-- The rounds of the constructor's loop that are left, from pin `c` on; the ~ that inverts a pin stays in its name.
unfoldable pub name_pins_from : ℕ → ℕ → Text → Expander → Expander
name_pins_from zero c names p = p
name_pins_from (suc k) c names p =
    let (name, others) = cut_name (index_of names (b',')) names in
    let named : Expander = record p {
      pin_names = set p.pin_names c name;
      bits_inverted =
          if starts_with name (lit "~") then set p.bits_inverted c true else p.bits_inverted;
    } in
    let rest = name_pins_from k (suc c) others named in if not_empty names then rest else p

-- The constructor. It leaves bits_pullup as it finds it.
unfoldable pub make_expander : Text → Text → Bits → Expander
unfolding name_pins_from
make_expander name names pullup = name_pins_from 16 0 names (record {
  leaf_name = name;
  bits_dir = bits_of 16 65535;
  bits_out = bits_of 16 0;
  bits_in = bits_of 16 0;
  bits_inverted = bits_of 16 0;
  bits_pullup = pullup;
  pin_names = no_names 16;
  found = false;
  last_input_state = bits_of 16 0;
})

abbrev pub keep_word : Register → Bits → Expander → Expander
keep_word gpio bits p = record p { bits_out = bits }
keep_word iodir bits p = record p { bits_dir = bits }
keep_word iopol bits p = record p { bits_inverted = bits }
keep_word gppu bits p = record p { bits_pullup = bits }

-- The expander, what went to the chip, and whether the return value is negative.
unfoldable pub write_regpair : WordBus → Bits → Register → Expander → Expander × (WordSent × Bool)
write_regpair bus bits reg p =
    if p.found && bus.takes
    then (keep_word reg bits p, (some (reg, bits), false))
    else (p, (none, true))

-- The low byte stands first.
abbrev pub joined : ℕ → ℕ → Bits
joined low high = bits_of 8 low ++ bits_of 8 high

abbrev pub take_word : Option ℕ → Option ℕ → Expander → Expander × Bool
take_word none high p = (p, false)
take_word (some low) none p = (p, true)
take_word (some low) (some high) p =
    if same_bits (joined low high) p.bits_in
    then (p, false)
    else (record p { bits_in = joined low high }, true)

-- The expander, and the return value.
unfoldable pub poll_expander : WordBus → Expander → Expander × Bool
poll_expander bus p = if p.found then take_word bus.gives_low bus.gives_high p else (p, false)

-- snprintf to a buffer of 64 characters
abbrev status_topic : Expander → Text → Text
status_topic p word = take 63 (lit "status/" ++ (p.leaf_name ++ (lit "/" ++ word)))

-- The pins from `c` on that have changed, or all of them for the shell.
unfoldable pub expander_pin_notices : Bool → Expander → ℕ → ℕ → List Notice
expander_pin_notices shell p c zero = []
expander_pin_notices shell p c (suc k) =
    let changed = xor (bit_at p.last_input_state c) (bit_at p.bits_in c) in
    let rest = expander_pin_notices shell p (suc c) k in
    if changed || shell
    then to_broker (status_topic p (name_or_number (get_elem? p.pin_names c) c))
        (if bit_at p.bits_in c then lit "1" else lit "0")
      ∷ rest
    else rest

unfoldable pub status_notices : Bool → Expander → List Notice
unfolding expander_pin_notices
status_notices shell p =
    to_broker (status_topic p (lit "bits_in")) (show_hex 4 (number_of p.bits_in))
    ∷ to_broker (status_topic p (lit "bits_out")) (show_hex 4 (number_of p.bits_out))
    ∷ expander_pin_notices shell p 0 16

-- status_pub; `shell` is the loopback of the pubsub leaf.
unfoldable pub expander_status : WordBus → Bool → Expander → Expander × List Notice
unfolding poll_expander status_notices
expander_status bus shell p =
    let polled = (poll_expander bus p).0 in
    if p.found
    then (record polled { last_input_state = polled.bits_in }, status_notices shell polled)
    else (p, [])

unfoldable pub parse_channel : Expander → Text → ℤ
unfolding find_pin
parse_channel p s = elim (find_pin 0 p.pin_names s) [ none ↦ to_int s | some c ↦ pos c ]

-- One write, and nothing else.
unfoldable pub write_word : WordBus → Bits → Register → Expander → ExpanderServed
unfolding write_regpair
write_word bus bits reg p =
    let (after, (sent, failed)) = write_regpair bus bits reg p in
    record { expander = after; sent = sent; notices = []; failed = failed; passed = false }

unfoldable pub write_only : WordBus → Bits → Register → Expander → Result ExpanderServed
unfolding write_word
write_only bus bits reg p = ok (write_word bus bits reg p)

-- A pin of the output is changed, and the status follows.
unfoldable pub change_output_pin :
    WordBus → Bool → Expander → ℤ → (Bool → Bool) → Result ExpanderServed
unfolding write_regpair expander_status
change_output_pin bus shell p bit f = shift_left bit >>= (λ c.
    let (after, (sent, failed)) =
      write_regpair bus (set p.bits_out c (f (bit_at p.bits_out c))) gpio p in
    let (reported, notices) = expander_status bus shell after in
    ok (record {
      expander = reported;
      sent = sent;
      notices = notices;
      failed = failed;
      passed = false;
    }))

-- "set/pin/": `!(1<<bit)` is 0, so that the other pins are cleared.
unfoldable pub set_only_pin : WordBus → Expander → ℤ → Bool → Result ExpanderServed
unfolding write_only
set_only_pin bus p bit val =
    shift_left bit >>= (λ c. write_only bus (set (bits_of 16 0) c val) gpio p)

unfoldable pub get_expander_pin : WordBus → Expander → ℤ → Text → Result ExpanderServed
unfolding poll_expander
get_expander_pin bus p bit payload =
    let polled = (poll_expander bus p).0 in
    shift_left bit >>= (λ c. ok (record {
      expander = polled;
      sent = none;
      notices =
          to_broker (lit "status/" ++ payload)
            (if bit_at polled.bits_in c then lit "1" else lit "0")
          ∷ [];
      failed = false;
      passed = false;
    }))

-- Leaf::mqtt_receive decides.
unfoldable pub pass_message : Expander → Result ExpanderServed
pass_message p =
    ok (record { expander = p; sent = none; notices = []; failed = false; passed = true })

-- mqtt_receive. The channel is read from the payload. "set/pins" writes the truth value of `strtoul(...) < 0`,
-- which is false for an unsigned number, and takes any result but 0 for a failure.
unfoldable pub expander_receive : WordBus → Bool → Text → Text → Expander → Result ExpanderServed
unfolding parse_channel strtoul_hex
expander_receive bus shell topic payload p =
    let bit = parse_channel p payload in
    let word = bits_of 16 (strtoul_hex payload) in
    if text_eq topic (lit "get/pin")
    then get_expander_pin bus p bit payload
    else (if starts_with topic (lit "set/pin/")
        then set_only_pin bus p bit (high_word payload)
        else (if text_eq topic (lit "set/pins")
            then write_only bus (bits_of 16 0) gpio p
            else (if text_eq topic (lit "set/directions")
                then write_only bus word iodir p
                else (if text_eq topic (lit "set/inversions")
                    then write_only bus word iopol p
                    else (if text_eq topic (lit "set/pullups")
                        then write_only bus word gppu p
                        else (if text_eq topic (lit "cmd/set")
                            then change_output_pin bus shell p bit (λ b. true)
                            else (if text_eq topic (lit "cmd/clear")
                                then change_output_pin bus shell p bit (λ b. false)
                                else (if text_eq topic (lit "cmd/toggle")
                                    then change_output_pin bus shell p bit not
                                    else pass_message p))))))))
