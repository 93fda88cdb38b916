-- ===== src/Extenders/ShiftRegister/Tests.antt =====
-- Examples of the shift registers: three pins, of which the second is inverted.
use stacx.Prelude.{◌≡◌, refl, Bool, true, false, some, [], ◌∷◌, List, get_elem?, take, arith}
use stacx.Prelude.Text.{Text, lit}
use stacx.Prelude.Int.{pos}
use stacx.Fault.{ok, fault, out_of_bounds}
use stacx.Extenders.ShiftRegister.{Pin, Pins, make_pins, write_pins}
use stacx.Extenders.ShiftRegister.Chip.{registers, Registers, drive_all}
use stacx.Extenders.ShiftRegister.Shifting.{write_pins-outputs}
use stacx.Extenders.ShiftRegister.Messages.{
  Served, shift_receive, written, shift_status, channel, find_channel, change_channel, change_pin,
  bits_out_to_hex, hex_loop, bit_rep,
}
use stacx.Extenders.ShiftRegister.Messages.Agreement.{Agrees, shift_receive-Agrees}
use stacx.Extenders.ShiftRegister.Messages.Naming.{
  shift_receive-toggles, AllNames, no_names, more_names, show_names, names_of, make_pins-show_names,
}

abbrev door : Pin
door = record { value = true; invert = false; name = lit "door" }

abbrev lamp : Pin
lamp = record { value = true; invert = true; name = lit "lamp" }

abbrev pump : Pin
pump = record { value = false; invert = false; name = lit "pump" }

abbrev board : Pins
board = door ∷ lamp ∷ pump ∷ []

abbrev powered : Registers
powered = record { data_in = true; clock = true; strobe = true; shifted = []; shown = [] }

abbrev after_write : Registers
after_write = drive_all registers (write_pins board) powered

write_pins-outputs_example : get_elem? (registers.outputs after_write) 1 ≡ some false
write_pins-outputs_example = write_pins-outputs registers board powered 1 lamp refl

-- The message does not depend on the pins: every bit that is in use is printed as 1.
all_ones : bits_out_to_hex board ≡ lit "07"
unfolding bits_out_to_hex hex_loop
all_ones = refl

past_the_end : bit_rep board (pos 3) ≡ fault out_of_bounds
unfolding bit_rep
past_the_end = refl

board-Agrees : Agrees registers board after_write
unfolding Agrees
board-Agrees = write_pins-outputs registers board powered

abbrev cleared : Pins
cleared = (record door { value = false }) ∷ lamp ∷ pump ∷ []

abbrev clear_door : Served
clear_door = written (shift_status cleared) cleared

serves_clear : shift_receive board (lit "cmd/clear") (lit "door") ≡ ok clear_door
unfolding shift_receive channel find_channel change_channel change_pin
serves_clear = refl

shift_receive-Agrees_example :
    get_elem? (registers.outputs (drive_all registers clear_door.drives after_write)) 0 ≡ some false
shift_receive-Agrees_example =
    shift_receive-Agrees registers board after_write (lit "cmd/clear") (lit "door") clear_door
      board-Agrees serves_clear 0 (record door { value = false }) refl

shift_receive-toggles_example :
    (v : Served) × (shift_receive board (lit "cmd/toggle") (lit "lamp") ≡ ok v)
    × (get_elem? (registers.outputs (drive_all registers v.drives after_write)) 1 ≡ some true)
unfolding find_channel
shift_receive-toggles_example =
    shift_receive-toggles registers board after_write 1 lamp 1 lamp refl refl refl

abbrev given_names : List (Bool × Text)
given_names = (false, lit "door") ∷ (true, lit "lamp") ∷ []

given : AllNames given_names
given =
    more_names (record { given = refl; no_comma = refl; no_mark = refl })
      (more_names (record { given = refl; no_comma = refl; no_mark = refl }) no_names)

make_pins-show_names_example :
    take 2 (names_of (make_pins 3 (show_names given_names))) ≡ given_names
make_pins-show_names_example = make_pins-show_names 3 given_names (omega arith) given (omega arith)
