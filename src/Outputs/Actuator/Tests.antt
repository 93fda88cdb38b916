-- ===== src/Outputs/Actuator/Tests.antt =====
-- An actuator that is on and told to toggle.
use stacx.Prelude.{◌≡◌, refl, true, false, [], ◌∷◌}
use stacx.Prelude.Text.{lit}
use stacx.Prelude.Int.{pos}
use stacx.Platform.Example.{board}
use stacx.Words.{parse_bool}
use stacx.Outputs.{drive}
use stacx.Outputs.Actuator.{Actuator, actuator_receive, set_actuator}

abbrev heater : Actuator board.floats
heater = record {
  state = true;
  intermittent_rate = pos 0;
  intermittent_duty = lit "0.5";
  persists = true;
  pin_invert = false;
  name = lit "heater";
}

-- An empty payload is not true, so that the actuator is set on again.
toggle_keeps :
    (actuator_receive board.floats (λ f. pos 1) (lit "cmd/toggle") [] heater).outputs
    ≡ drive true ∷ []
unfolding actuator_receive parse_bool set_actuator
toggle_keeps = refl
