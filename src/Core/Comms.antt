-- ===== src/Core/Comms.antt =====
-- The state of the communications that the leaves announce and the status light shows (stacx.h: `comms_state`,
-- `idle_pattern`, `idle_color`, `set_identify`). The last argument of `comms_state`, a leaf, is here whether its
-- network leaf has the priority "service"; the trace and the duration of a transaction are not modelled.
pub mod Looks
pub mod Reverting
pub mod Tests
use stacx.Prelude.{ℕ, Bool, true, false, [], ◌∷◌, ◌++◌, List, if◌then◌else◌}
use stacx.Prelude.Text.{Text, lit}
use stacx.Core.Blink.{Pattern, Blinker, LedEffect, hello_on, hello_update}

-- enum comms_state
pub data CommsState : Type 0 where
  undefined offline revert wait_modem try_modem wait_ip try_ip try_gps : CommsState
  wait_pubsub try_pubsub online transaction : CommsState

-- The colours of the status pixel that the program names here.
pub data Color : Type 0 where
  red brown magenta orange yellow greenyellow cyan green blue white : Color

-- `hello_pixel` is USE_HELLO_PIXEL; without it a build has a status pin.
pub record Comms : Type 0 where
  pub hello_pixel : Bool
  pub stacx_comms_state : CommsState
  pub stacx_comms_state_prev : CommsState
  pub pattern : Pattern
  pub hello_color : Color
  pub blinker : Blinker

pub data CommsEffect : Type 0 where
  light : LedEffect → CommsEffect
  publish : Text → Text → CommsEffect

abbrev pub CommsStep : Type 0
CommsStep = Comms × List CommsEffect

abbrev lights : List LedEffect → List CommsEffect
lights [] = []
lights (e ∷ es) = light e ∷ lights es

unfoldable pub comms_state_name : CommsState → Text
comms_state_name undefined = lit "UNDEFINED"
comms_state_name offline = lit "OFFLINE"
comms_state_name revert = lit "(revert)"
comms_state_name wait_modem = lit "WAIT_MODEM"
comms_state_name try_modem = lit "TRY_MODEM"
comms_state_name wait_ip = lit "WAIT_IP"
comms_state_name try_ip = lit "TRY_IP"
comms_state_name try_gps = lit "TRY_GPS"
comms_state_name wait_pubsub = lit "WAIT_PUBSUB"
comms_state_name try_pubsub = lit "TRY_PUBSUB"
comms_state_name online = lit "ONLINE"
comms_state_name transaction = lit "TRANSACTION"

abbrev pub then_step : CommsStep → (Comms → CommsStep) → CommsStep
then_step (s, es) next = let (t, more) = next s in (t, es ++ more)

abbrev light_update : Comms → CommsStep
light_update s =
    let (b, es) = hello_update s.pattern s.blinker in (record s { blinker = b }, lights es)

unfoldable pub idle_pattern : ℕ → ℕ → Comms → CommsStep
unfolding hello_update
idle_pattern cycle duty s =
    light_update (record s { pattern = record s.pattern { blink_rate = cycle; blink_duty = duty } })

unfoldable pub idle_color : Color → Comms → CommsStep
idle_color c s =
    if s.hello_pixel then (record s { hello_color = c }, light hello_on ∷ []) else (s, [])

abbrev pub both : ℕ → ℕ → Color → Comms → CommsStep
both cycle duty c s = then_step (idle_pattern cycle duty s) (idle_color c)

-- The switch. The case OFFLINE has no break.
unfoldable pub indicate : CommsState → Comms → CommsStep
unfolding idle_pattern idle_color
indicate undefined s = (s, [])
indicate offline s = then_step (both 50 50 red s) (both 100 1 brown)
indicate wait_modem s = both 100 1 brown s
indicate try_modem s = both 100 50 magenta s
indicate wait_ip s = both 250 1 orange s
indicate try_ip s = both 250 50 yellow s
indicate wait_pubsub s = both 500 1 greenyellow s
indicate try_pubsub s = both 500 50 cyan s
indicate try_gps s = both 250 50 cyan s
indicate online s = both 5000 1 green s
indicate transaction s = both 1000 50 blue s
indicate revert s = (s, [])

abbrev pub is_transaction : CommsState → Bool
is_transaction transaction = true
is_transaction other = false

-- What a request stands for: REVERT goes back.
abbrev pub wanted : CommsState → CommsState → CommsState
wanted revert prev = prev
wanted other prev = other

abbrev announce : Bool → CommsState → CommsEffect
announce is_service s =
    publish (if is_service then lit "_service_comms_state" else lit "_comms_state")
      (comms_state_name s)

unfoldable pub comms_state : Bool → CommsState → Comms → CommsStep
unfolding indicate comms_state_name
comms_state is_service request s0 =
    let target = wanted request s0.stacx_comms_state_prev in
    let shown = if s0.pattern.identify then (s0, []) else indicate target s0 in
    let s = shown.0 in
    let prev =
      if is_transaction s.stacx_comms_state
      then s.stacx_comms_state_prev
      else s.stacx_comms_state in
    (
      record s { stacx_comms_state = target; stacx_comms_state_prev = prev },
      shown.1 ++ (announce is_service target ∷ []),
    )

-- The leaf is the first one, whose network is `is_service`.
unfoldable pub set_identify : Bool → Bool → Comms → CommsStep
unfolding comms_state hello_update
set_identify is_service identify_new s0 =
    let s : Comms = record s0 { pattern = record s0.pattern { identify = identify_new } } in
    let coloured =
      if s.hello_pixel
      then (if identify_new
          then (record s { hello_color = white }, [])
          else comms_state is_service s.stacx_comms_state s)
      else (s, []) in
    then_step coloured light_update
