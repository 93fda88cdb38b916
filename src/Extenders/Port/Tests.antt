-- ===== src/Extenders/Port/Tests.antt =====
-- Examples of the PCF8574 with the pins "relay,~led,button:qv".
use stacx.Prelude.{◌≡◌, refl, true, false, some, [], ◌∷◌}
use stacx.Prelude.Text.{lit}
use stacx.Prelude.Number.{to_int}
use stacx.Prelude.Bits.{bits_of, bits_xor}
use stacx.Fault.{ok, fault, out_of_bounds}
use stacx.Extenders.Port.{
  Port, Bus, PortServed, make_port, set_pin_names, name_from, name_pin, set_up_port, write_port,
  poll, port_status, draw_bits, port_channel, find_pin,
}
use stacx.Extenders.Port.Messages.{port_receive, change_bit, change_noted_bit, write_and_report}
use stacx.Extenders.Port.Syncing.{latch, port_receive-Shows}

abbrev bus : Bus
bus = record { accepts = true; gives = some 5 }

-- Pins 1 and 2 are inverted from the start, and named so.
abbrev fresh : Port
fresh = record {
  bits_out = bits_of 8 255;
  bits_in = bits_of 8 255;
  last_input_state = bits_of 8 255;
  bits_inverted = bits_of 8 6;
  quiet = false;
  found = false;
  publish_bits = true;
  pin_quiet = false ∷ false ∷ true ∷ false ∷ false ∷ false ∷ false ∷ false ∷ [];
  pin_names = lit "relay" ∷ lit "~led" ∷ lit "button" ∷ [] ∷ [] ∷ [] ∷ [] ∷ [] ∷ [];
}

made : make_port (lit "relay,~led,button:qv") 255 false ≡ fresh
unfolding make_port set_pin_names name_from name_pin
made = refl

abbrev started : Port
started = record fresh { bits_out = bits_of 8 249; found = true }

starts : set_up_port bus fresh ≡ (started, some (bits_of 8 255))
unfolding set_up_port write_port
starts = refl

abbrev toggled : PortServed
toggled = record {
  port = record started { bits_out = bits_of 8 248; quiet = true };
  sent = some (bits_of 8 254);
  notices = [];
  passed = false;
}

toggles :
    port_receive bus false (record started { quiet = true }) (lit "cmd/toggle") (lit "relay")
    ≡ ok toggled
unfolding port_receive change_noted_bit change_bit write_and_report write_port port_status
    port_channel find_pin
toggles = refl

port_receive-Shows_example :
    latch toggled.sent (bits_of 8 255) ≡ bits_xor toggled.port.bits_out toggled.port.bits_inverted
port_receive-Shows_example =
    port_receive-Shows bus false (record started { quiet = true }) (bits_of 8 255)
      (lit "cmd/toggle") (lit "relay") toggled refl refl toggles

-- The log reads the option of a pin that is not there.
no_such_pin : port_receive bus false started (lit "cmd/toggle") (lit "9") ≡ fault out_of_bounds
unfolding port_receive change_noted_bit port_channel find_pin to_int
no_such_pin = refl

abbrev polled : Port
polled = record started { bits_in = bits_of 8 3 }

polls : poll bus started ≡ (polled, true)
unfolding poll
polls = refl

drawn : draw_bits (bits_of 8 165) ≡ lit "1010-0101"
unfolding draw_bits
drawn = refl
