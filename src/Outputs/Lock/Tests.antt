-- ===== src/Outputs/Lock/Tests.antt =====
-- Examples of the lock.
use stacx.Prelude.{◌≡◌, refl, true, false, some, [], ◌∷◌, List, get_elem?, arith}
use stacx.Prelude.Text.{lit}
use stacx.Prelude.Number.{to_int}
use stacx.Fault.{ok}
use stacx.Extenders.ShiftRegister.{Pin, Pins, Drive}
use stacx.Extenders.ShiftRegister.Chip.{registers, Registers, drive_all}
use stacx.Extenders.ShiftRegister.Messages.{find_channel}
use stacx.Outputs.Lock.{
  Lock, make_lock, make_extended_lock, set_lock, lock_command, lock_loop, lock_receive,
}
use stacx.Outputs.Lock.Timing.{lock_command-expires}
use stacx.Outputs.Lock.Extending.{told, serve_told, set_lock-chip}

abbrev gate : Lock
gate = record {
  standby = false;
  timed_unlock = false;
  lock_state = false;
  fail_state = false;
  invert = false;
  timed_unlock_end = 0;
  extender = lit "ext";
  extender_pin = lit "gate";
}

made : make_extended_lock (lit "other") (lit "ext:gate") ≡ gate
unfolding make_extended_lock make_lock
made = refl

-- What the lock publishes when it is locked is taken for unlocked.
status_misread : (lock_receive (lit "status/lock") (lit "locked") gate).outputs ≡ []
unfolding lock_receive to_int
status_misread = refl

lock_command-expires_example :
    ((lock_command 1000 (lit "unlock") (lit "5") gate).outputs ≡ set_lock gate false)
    × ((lock_loop 6000 (lock_command 1000 (lit "unlock") (lit "5") gate).lock).outputs
        ≡ set_lock gate true)
    × ((lock_loop 6000 (lock_command 1000 (lit "unlock") (lit "5") gate).lock).lock.timed_unlock
        ≡ false)
unfolding to_int
lock_command-expires_example =
    lock_command-expires gate 1000 6000 5 (lit "5") refl refl refl (omega arith)

abbrev lamp_pin : Pin
lamp_pin = record { value = false; invert = false; name = lit "lamp" }

abbrev gate_pin : Pin
gate_pin = record { value = false; invert = true; name = lit "gate" }

abbrev extender : Pins
extender = lamp_pin ∷ gate_pin ∷ []

abbrev powered : Registers
powered = record { data_in = false; clock = false; strobe = false; shifted = []; shown = [] }

set_lock-chip_example :
    (r : Pins × List Drive) × (serve_told (told (set_lock gate true)) extender ≡ ok r)
    × (get_elem? (registers.outputs (drive_all registers r.1 powered)) 1 ≡ some false)
unfolding find_channel
set_lock-chip_example =
    set_lock-chip registers extender powered 1 gate_pin gate true refl refl refl refl
