-- ===== src/Outputs/Actuator.antt =====
-- The actuator (leaf_actuator.h), without the loop of its intermittent mode, which compares floats.
-- The period of a frequency, which is a division of floats, is a parameter.
pub mod Tests
use stacx.Prelude.{
  ◌==◌, Bool, true, false, not, ◌||◌, ◌&&◌, Option, none, some, [], ◌∷◌, ◌++◌, List, if◌then◌else◌,
}
use stacx.Prelude.Text.{Text, lit, text_eq}
use stacx.Prelude.Int.{ℤ, pos, int_eq}
use stacx.Prelude.Number.{to_int, show_int}
use stacx.Prelude.Bits.{xor}
use stacx.Platform.{Floats}
use stacx.Words.{parse_bool}
use stacx.Outputs.{Output, drive, report, keep, wait_ms, set_pins, clear_pins}

module _ (F : Floats) where
  -- `persists` is `persist` with a preference store at hand; `name` is the leaf's.
  pub record Actuator : Type 0 where
    pub state : Bool
    pub intermittent_rate : ℤ
    pub intermittent_duty : F.Float
    pub persists : Bool
    pub pin_invert : Bool
    pub name : Text

  -- `passed` says that the message goes on to the class Leaf.
  pub record ActuatorServed : Type 0 where
    pub actuator : Actuator
    pub outputs : List Output
    pub passed : Bool

  abbrev pub taken : Actuator → List Output → ActuatorServed
  taken s outputs = record { actuator = s; outputs = outputs; passed = false }

  -- status_pub
  unfoldable pub actuator_status : Actuator → List Output
  actuator_status s =
      let prefix = lit "status/" ++ (s.name ++ lit "/") in
      if int_eq s.intermittent_rate (pos 0)
      then report (prefix ++ lit "actuator") (if s.state then lit "on" else lit "off") ∷ []
      else report (prefix ++ lit "actuator") (lit "intermittent")
        ∷ report (prefix ++ lit "rate") (show_int s.intermittent_rate)
        ∷ report (prefix ++ lit "duty") (F.show_float s.intermittent_duty)
        ∷ []

  -- setActuator: the pins are written in any case, the rest is done when the state changes.
  unfoldable pub set_actuator : Bool → Actuator → ActuatorServed
  unfolding actuator_status
  set_actuator on s =
      let pins = if on then set_pins s.pin_invert else clear_pins s.pin_invert in
      let changed : Actuator = record s { state = on } in
      if xor on s.state
      then taken changed (
          pins
          ∷ ((if s.persists then keep (if on then 1 else 0) ∷ [] else [])
              ++ actuator_status changed))
      else taken s (pins ∷ [])

  -- start
  unfoldable pub actuator_start : Actuator → ActuatorServed
  unfolding set_actuator
  actuator_start s = set_actuator s.state s

  abbrev then_output : ActuatorServed → Output → ActuatorServed
  then_output served o = record served { outputs = served.outputs ++ o ∷ [] }

  -- The callback of the timer of "cmd/oneshot", of the actuator that was asked last.
  unfoldable pub oneshot_ends : Actuator → ActuatorServed
  unfolding set_actuator
  oneshot_ends s = set_actuator false s

  -- A pulse of microseconds, low for an inverted pin.
  abbrev pub pulse_us : Actuator → List Output
  pulse_us s = drive (not s.pin_invert) ∷ drive s.pin_invert ∷ []

  -- mqtt_receive. "cmd/toggle" sets the opposite of the payload's truth value, not of the state.
  unfoldable pub actuator_receive : (F.Float → ℤ) → Text → Text → Actuator → ActuatorServed
  unfolding set_actuator actuator_status
  actuator_receive period_of topic payload s =
      let on = (parse_bool payload false).value in
      let reported : Actuator → ActuatorServed = λ t. taken t (actuator_status t) in
      if text_eq topic (lit "set/actuator")
      then set_actuator on s
      else if text_eq topic (lit "cmd/toggle")
      then set_actuator (not on) s
      else if text_eq topic (lit "cmd/off")
      then set_actuator false s
      else if text_eq topic (lit "cmd/on")
      then set_actuator true s
      else if text_eq topic (lit "cmd/oneshot")
      then then_output (set_actuator true s) (wait_ms (to_int payload))
      else if text_eq topic (lit "cmd/oneshot_usec")
      then taken s (pulse_us s)
      else if text_eq topic (lit "set/period")
      then reported (record s { intermittent_rate = to_int payload })
      else if text_eq topic (lit "set/freq")
      then reported (record s { intermittent_rate = period_of (F.to_float payload) })
      else if text_eq topic (lit "set/duty")
      then reported (record s { intermittent_duty = F.to_float payload })
      else if text_eq topic (lit "status/actuator")
      then (if xor on s.state then set_actuator on s else taken s [])
      else if text_eq topic (lit "status/intermittent_rate")
      then taken (record s { intermittent_rate = to_int payload }) []
      else if text_eq topic (lit "status/intermittent_duty")
      then taken
          (if F.float_eq (F.to_float payload) s.intermittent_duty
            then s
            else record s { intermittent_duty = F.to_float payload })
          []
      else record { actuator = s; outputs = []; passed = true }
