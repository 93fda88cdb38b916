-- ===== src/Outputs.antt =====
-- The leaves that drive an output: what they do to it and to the rest of the device, as effects in
-- order (leaf.h: `set_pins`, `clear_pins`, `message`).
pub mod Lock
pub mod Light
pub mod Outlet
pub mod Actuator
use stacx.Prelude.{ℕ, Bool, not, if◌then◌else◌, Option, none, some}
use stacx.Prelude.Text.{Text, index_of, substring}
use stacx.Prelude.{length, drop, take, suc, zero}
use stacx.Prelude.Int.{ℤ}

-- The level written to the leaf's pins; a message to a leaf that is tapped; a publication to the broker, and
-- one that is retained; a number kept in the preference store; a timer that runs for milliseconds.
pub data Output : Type 0 where
  drive : Bool → Output
  tell : Text → Text → Text → Output
  report retain : Text → Text → Output
  keep : ℕ → Output
  wait_ms : ℤ → Output

-- set_pins() and clear_pins() of pins that may be inverted
abbrev pub set_pins : Bool → Output
set_pins pin_invert = drive (not pin_invert)

abbrev pub clear_pins : Bool → Output
clear_pins pin_invert = drive pin_invert

-- The pin of an extender, "extender:pin"; without a colon, or with one at the start, the extender is the
-- target of the leaf.
abbrev pub split_target : Option ℕ → Text → Text → Text × Text
split_target none target pin = (target, pin)
split_target (some zero) target pin = (target, pin)
split_target (some (suc i)) target pin = (take (suc i) pin, drop (suc (suc i)) pin)

abbrev pub extender_of : Text → Text → Text × Text
extender_of target pin = split_target (index_of pin (b':')) target pin
