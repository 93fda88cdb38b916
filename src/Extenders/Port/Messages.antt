-- ===== src/Extenders/Port/Messages.antt =====
-- The messages to the leaf of the PCF8574 (leaf_pinextender_pcf8574.h: `mqtt_receive`).
use stacx.Prelude.{
  Bool, true, false, not, none, [], ◌∷◌, ◌++◌, List, length, drop, set, if◌then◌else◌,
}
use stacx.Prelude.Text.{Text, lit, text_eq, starts_with, substring}
use stacx.Prelude.Int.{ℤ}
use stacx.Prelude.Bits.{Bits, bits_of, number_of, bit_at, show_hex_capitals, strtoul_hex}
use stacx.Fault.{Result, ok, ◌>>=◌}
use stacx.Words.{parse_bool}
use stacx.Extenders.ShiftRegister.Messages.{Notice, to_broker, to_taps, after_last_slash, high_word}
use stacx.Extenders.Port.{
  Port, Bus, PortServed, write_port, poll, port_status, port_channel, shift_left, read_quiet,
}

-- A write, and then the status unless the leaf is quiet.
unfoldable pub write_and_report : Bus → Bool → Bits → Port → PortServed
unfolding write_port port_status
write_and_report bus shell bits p =
    let (after, sent) = write_port bus bits p in
    let (reported, notices) = port_status shell after in
    record {
      port = if after.quiet then after else reported;
      sent = sent;
      notices = if after.quiet then [] else notices;
      passed = false;
    }

-- write(bits_out OP= (1<<bit)): the bits are changed whether the bus takes them or not.
unfoldable pub change_bit : Bus → Bool → Port → ℤ → (Bool → Bool) → Result PortServed
unfolding write_and_report
change_bit bus shell p bit f = shift_left bit >>= (λ c.
    let bits = set p.bits_out c (f (bit_at p.bits_out c)) in
    ok (write_and_report bus shell bits (record p { bits_out = bits })))

-- "set/pin/" and "set/direction/": the status is for the taps, and the poll does not report the pin again.
unfoldable pub set_bit : Bus → Port → ℤ → Text → Bool → Result PortServed
unfolding write_port
set_bit bus p bit name value = shift_left bit >>= (λ c.
    let (after, sent) = write_port bus (set p.bits_out c value) p in
    ok (record {
      port = record after { last_input_state = set after.last_input_state c value };
      sent = sent;
      notices = to_taps (lit "status/" ++ name) (if value then lit "on" else lit "off") ∷ [];
      passed = false;
    }))

abbrev pub port_quietly : Port → List Notice → PortServed
port_quietly p notices = record { port = p; sent = none; notices = notices; passed = false }

-- What follows the last slash of the payload, cut from a text.
abbrev frag : Text → Text → Text
frag text payload = substring text (after_last_slash payload) (length text)

unfoldable pub get_pin : Bus → Port → Text → Result PortServed
unfolding poll port_channel
get_pin bus p payload =
    let polled = (poll bus p).0 in
    shift_left (port_channel polled payload) >>= (λ c. ok (
      port_quietly polled (
        to_broker (lit "status/" ++ payload) (if bit_at polled.bits_in c then lit "1" else lit "0")
        ∷ [])))

unfoldable pub get_pins : Bus → Port → Result PortServed
unfolding poll
get_pins bus p =
    let polled = (poll bus p).0 in
    ok (
      port_quietly polled
        (to_broker (lit "status/pins") (show_hex_capitals 2 (number_of polled.bits_in)) ∷ []))

unfoldable pub set_pins : Bus → Port → Text → Result PortServed
unfolding write_port
set_pins bus p payload =
    let (after, sent) = write_port bus (bits_of 8 (strtoul_hex payload)) p in
    ok (record { port = after; sent = sent; notices = []; passed = false })

unfoldable pub poll_command : Bus → Bool → Port → Result PortServed
unfolding poll port_status
poll_command bus shell p =
    let (reported, notices) = port_status shell (poll bus p).0 in ok (port_quietly reported notices)

-- "cmd/toggle" and "cmd/unset", which look up whether the pin is quiet first.
unfoldable pub change_noted_bit : Bus → Bool → Port → ℤ → (Bool → Bool) → Result PortServed
unfolding change_bit
change_noted_bit bus shell p bit f = read_quiet p bit >>= (λ q. change_bit bus shell p bit f)

unfoldable pub set_publish_bits : Port → Text → Result PortServed
set_publish_bits p payload =
    ok (port_quietly (record p { publish_bits = (parse_bool payload false).value }) [])

-- Leaf::mqtt_receive decides.
unfoldable pub pass_on : Port → Result PortServed
pass_on p = ok (record { port = p; sent = none; notices = []; passed = true })

-- mqtt_receive; `shell` is pubsub_loopback.
unfoldable pub port_receive : Bus → Bool → Port → Text → Text → Result PortServed
port_receive bus shell p topic payload =
    if text_eq topic (lit "get/pin")
    then get_pin bus p payload
    else if text_eq topic (lit "get/pins")
    then get_pins bus p
    else if starts_with topic (lit "set/pin/")
    then set_bit bus p (port_channel p (frag (drop 8 topic) payload)) (frag (drop 8 topic) payload)
        (high_word payload)
    else if starts_with topic (lit "set/direction/")
    then set_bit bus p (port_channel p (frag payload payload)) (frag payload payload)
        (text_eq payload (lit "out"))
    else if text_eq topic (lit "set/pins")
    then set_pins bus p payload
    else if text_eq topic (lit "set/publish_bits")
    then set_publish_bits p payload
    else if text_eq topic (lit "cmd/set")
    then change_bit bus shell p (port_channel p payload) (λ old. true)
    else if text_eq topic (lit "cmd/toggle")
    then change_noted_bit bus shell p (port_channel p payload) not
    else if text_eq topic (lit "cmd/unset")
    then change_noted_bit bus shell p (port_channel p payload) (λ old. false)
    else if text_eq topic (lit "cmd/clear")
    then change_bit bus shell p (port_channel p payload) (λ old. false)
    else if text_eq topic (lit "cmd/poll")
    then poll_command bus shell p
    else pass_on p
