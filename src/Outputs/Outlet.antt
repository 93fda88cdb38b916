-- ===== src/Outputs/Outlet.antt =====
-- The outlet (leaf_outlet.h).
pub mod Tests
use stacx.Prelude.{Bool, true, false, ◌||◌, [], ◌∷◌, List, if◌then◌else◌}
use stacx.Prelude.Text.{Text, lit, text_eq}
use stacx.Prelude.Bits.{xor}
use stacx.Outputs.{Output, report, set_pins}

pub record OutletServed : Type 0 where
  pub state : Bool
  pub outputs : List Output
  pub handled : Bool

-- setOutlet: the pins are set whatever the state, since the test is of the name of the state, which is never NULL.
unfoldable pub set_outlet : Bool → Bool → OutletServed
set_outlet pin_invert on = record {
  state = on;
  outputs =
      set_pins pin_invert ∷ report (lit "status/outlet") (if on then lit "on" else lit "off") ∷ [];
  handled = true;
}

abbrev on_word : Text → Bool
on_word payload =
    text_eq payload (lit "1")
    || text_eq payload (lit "on")
    || text_eq payload (lit "true")
    || text_eq payload (lit "high")

-- mqtt_receive, before the class Leaf
unfoldable pub outlet_receive : Bool → Text → Text → Bool → OutletServed
unfolding set_outlet
outlet_receive pin_invert topic payload state =
    if text_eq topic (lit "set/outlet")
    then set_outlet pin_invert (on_word payload)
    else if text_eq topic (lit "status/outlet")
    then (if xor (on_word payload) state
        then set_outlet pin_invert (on_word payload)
        else record { state = state; outputs = []; handled = true })
    else record { state = state; outputs = []; handled = false }
