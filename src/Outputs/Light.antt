-- ===== src/Outputs/Light.antt =====
-- The light (leaf_light.h).
pub mod Flashing
pub mod Restoring
pub mod Tests
use stacx.Prelude.{
  ℕ, ◌*◌, ◌/◌, ◌%◌, ◌^◌, ◌==◌, Bool, true, false, not, ◌&&◌, ◌||◌, Option, none, some, [], ◌∷◌,
  ◌++◌, List, if◌then◌else◌, leb, ltb,
}
use stacx.Prelude.Text.{Text, lit, text_eq, not_empty}
use stacx.Prelude.Int.{ℤ, pos, negsuc, int_eq, int_leb}
use stacx.Prelude.Number.{to_int, show_int}
use stacx.Prelude.Bits.{xor}
use stacx.Fault.{Result, ok, fault, int_overflow, ◌>>=◌}
use stacx.Words.{parse_payload_bool}
use stacx.Outputs.{Output, tell, retain, keep, wait_ms, set_pins, clear_pins, extender_of}

-- `persists` is `persist` with a preference store at hand.
pub record Light : Type 0 where
  pub state : Bool
  pub flash_rate : ℤ
  pub flash_duty : ℤ
  pub persists : Bool
  pub pubsub_persist : Bool
  pub pin_invert : Bool
  pub extender : Text
  pub extender_pin : Text

pub record LightServed : Type 0 where
  pub light : Light
  pub outputs : List Output
  pub handled : Bool

abbrev pub lit_word : Bool → Text
lit_word b = if b then lit "lit" else lit "unlit"

abbrev pub is_flashing : Light → Bool
is_flashing s = not (int_eq s.flash_rate (pos 0))

-- status_pub
unfoldable pub light_status : Light → List Output
light_status s =
    if is_flashing s
    then retain (lit "status/light") (lit "flash")
      ∷ retain (lit "status/flash/rate") (show_int s.flash_rate)
      ∷ retain (lit "status/flash/duty") (show_int s.flash_duty)
      ∷ []
    else retain (lit "status/light") (lit_word s.state) ∷ []

unfoldable pub light_relay : Light → Bool → Output
light_relay s on =
    if not_empty s.extender_pin
    then tell s.extender (if on then lit "cmd/set" else lit "cmd/clear") s.extender_pin
    else if on
    then set_pins s.pin_invert
    else clear_pins s.pin_invert

abbrev pub light_served : Light → List Output → LightServed
light_served s outputs = record { light = s; outputs = outputs; handled = true }

abbrev pub light_unserved : Light → LightServed
light_unserved s = record { light = s; outputs = []; handled = false }

unfoldable pub set_light : Bool → Light → LightServed
unfolding light_relay light_status
set_light on s =
    let changed : Light = record s { state = on } in
    light_served changed (
      light_relay s on
      ∷ ((if s.persists then keep (if on then 1 else 0) ∷ [] else []) ++ light_status changed))

-- The second constructor, by the place of the light's pin.
unfoldable pub make_extended_light : Text → Text → Light → Light
make_extended_light target light_target s =
    let (extender, pin) = extender_of target light_target in
    record s { extender = extender; extender_pin = pin }

unfoldable pub parse_light : Text → Bool
parse_light payload = parse_payload_bool payload false || text_eq payload (lit "lit")

-- start
unfoldable pub light_start : Light → LightServed
unfolding set_light
light_start s = set_light s.state s

-- blipLight turns the pins on, and off when the timer has run, whatever the state of the light.
unfoldable pub blip_light : ℤ → Light → LightServed
blip_light duration s = light_served s (set_pins s.pin_invert ∷ wait_ms duration ∷ [])

unfoldable pub blip_stop : Light → List Output
blip_stop s = clear_pins s.pin_invert ∷ []

-- valueChangeHandler, when `value` has been stored; the status is published in any case.
unfoldable pub light_value_change : Text → Bool → Light → LightServed
unfolding set_light light_status
light_value_change topic value s =
    let served =
      if text_eq topic (lit "state") || text_eq topic (lit "light")
      then set_light value s
      else light_unserved s in
    record served { outputs = served.outputs ++ light_status served.light }

-- commandHandler, before the class Leaf
unfoldable pub light_command : Text → Text → Light → LightServed
unfolding set_light blip_light
light_command topic payload s =
    if text_eq topic (lit "toggle")
    then set_light (not s.state) s
    else if text_eq topic (lit "off")
    then set_light false s
    else if text_eq topic (lit "on")
    then set_light true s
    else if text_eq topic (lit "blip")
    then blip_light (to_int payload) s
    else light_unserved s

-- A status that the broker has retained counts if it is not the state of the light.
unfoldable pub take_status : Bool → Light → LightServed
unfolding set_light
take_status on s = if xor on s.state then set_light on s else light_served s []

-- mqtt_receive, before the class Leaf: the states that the broker has retained
unfoldable pub light_receive : Text → Text → Light → LightServed
unfolding parse_light take_status
light_receive topic payload s =
    if text_eq topic (lit "status/light")
    then take_status (parse_light payload) s
    else if text_eq topic (lit "status/flash/rate")
    then light_served (record s { flash_rate = to_int payload }) []
    else if text_eq topic (lit "status/flash/duty")
    then light_served (record s { flash_duty = to_int payload }) []
    else light_unserved s

-- The pins are changed when the state is; an extender is not told.
abbrev pub flash : Bool → Light → LightServed
flash on s =
    if on
    then (if s.state
        then light_served s []
        else light_served (record s { state = true }) (set_pins s.pin_invert ∷ []))
    else (if s.state
        then light_served (record s { state = false }) (clear_pins s.pin_invert ∷ [])
        else light_served s [])

-- flash_rate * flash_duty, of int
abbrev pub int_product : ℕ → ℕ → Result ℕ
int_product a b = if ltb (a * b) (2 ^ 31) then ok (a * b) else fault int_overflow

-- The part of the loop for a rate above zero; a duty cycle of 0 or 100 percent is steady.
abbrev pub flash_loop : ℕ → ℕ → ℤ → Light → Result LightServed
flash_loop now rate (negsuc duty) s = ok (if s.state then set_light false s else light_served s [])
flash_loop now rate (pos duty) s =
    if duty == 0
    then ok (if s.state then set_light false s else light_served s [])
    else if leb 100 duty
    then ok (if s.state then light_served s [] else set_light true s)
    else int_product rate duty >>= (λ product. ok (flash (ltb (now % rate) (product / 100)) s))

abbrev pub by_rate : ℕ → ℤ → Light → Result LightServed
by_rate now (negsuc rate) s = ok (light_served s [])
by_rate now (pos rate) s =
    if rate == 0 then ok (light_served s []) else flash_loop now rate s.flash_duty s

unfoldable pub light_loop : ℕ → Light → Result LightServed
unfolding set_light
light_loop now s = by_rate now s.flash_rate s
