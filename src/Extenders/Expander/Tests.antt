-- ===== src/Extenders/Expander/Tests.antt =====
-- Examples of the MCP23017.
use stacx.Prelude.{◌≡◌, refl, true, false, some, none, [], ◌∷◌, List}
use stacx.Prelude.Text.{lit}
use stacx.Prelude.Number.{to_int}
use stacx.Prelude.Int.{pos}
use stacx.Prelude.Bits.{bits_of, number_of, strtoul_hex}
use stacx.Fault.{ok}
use stacx.Extenders.Port.{find_pin}
use stacx.Extenders.Expander.{
  Expander, WordBus, gpio, set_only_pin, name_pins_from, make_expander, parse_channel,
  write_regpair, write_word, write_only, expander_receive,
}
use stacx.Extenders.Expander.Agreement.{Chip, Delivered, record_of, receive_all, receive_all-record}

abbrev board : Expander
board = record {
  leaf_name = lit "mcp";
  bits_dir = bits_of 16 65535;
  bits_out = bits_of 16 3;
  bits_in = bits_of 16 0;
  bits_inverted = bits_of 16 2;
  bits_pullup = bits_of 16 0;
  pin_names = lit "lamp" ∷ lit "~fan" ∷ [];
  found = true;
  last_input_state = bits_of 16 0;
}

abbrev working : WordBus
working = record { takes = true; gives_low = some 1; gives_high = some 0 }

abbrev broken : WordBus
broken = record { takes = false; gives_low = none; gives_high = none }

made : number_of (make_expander (lit "mcp") (lit "lamp,~fan") (bits_of 16 0)).bits_inverted ≡ 2
unfolding make_expander name_pins_from
made = refl

named : parse_channel board (lit "~fan") ≡ pos 1
unfolding parse_channel find_pin
named = refl

abbrev deliver : List Delivered
deliver =
    record { bus = working; shell = false; topic = lit "set/directions"; payload = lit "ff00" }
    ∷ record { bus = broken; shell = false; topic = lit "set/pullups"; payload = lit "ff" }
    ∷ []

abbrev served_board : Expander
served_board = record board { bits_dir = bits_of 16 65280 }

-- What the chip has then.
abbrev directed_chip : Chip
directed_chip = record {
  gpio_bits = bits_of 16 3;
  iodir_bits = bits_of 16 65280;
  gppu_bits = bits_of 16 0;
}

directed : receive_all deliver board (record_of board) ≡ ok (served_board, directed_chip)
unfolding receive_all expander_receive write_only write_word write_regpair parse_channel find_pin
    strtoul_hex to_int
directed = refl

-- All the pins are cleared, whatever the payload.
cleared :
    expander_receive working false (lit "set/pins") (lit "ffff") board
    ≡ ok (write_word working (bits_of 16 0) gpio board)
unfolding expander_receive write_only write_word write_regpair parse_channel find_pin strtoul_hex
    to_int
cleared = refl

-- The payload names the pin as well as its value: pin 1 is set, and the others are cleared.
set_by_payload :
    expander_receive working false (lit "set/pin/lamp") (lit "1") board
    ≡ ok (write_word working (bits_of 16 2) gpio board)
unfolding expander_receive set_only_pin write_only write_word write_regpair parse_channel find_pin
    strtoul_hex to_int
set_by_payload = refl

receive_all-record_example : directed_chip ≡ record_of served_board
receive_all-record_example =
    receive_all-record deliver board (record_of board) served_board directed_chip refl directed
