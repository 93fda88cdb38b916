-- ===== src/Outputs/Light/Tests.antt =====
-- Examples of the light.
use stacx.Prelude.{◌≡◌, refl, true, false, [], ◌∷◌, inr, arith}
use stacx.Fault.{ok, fault, int_overflow}
use stacx.Prelude.Int.{pos}
use stacx.Outputs.{drive}
use stacx.Outputs.Light.{Light, LightServed, light_status, light_loop, blip_light, blip_stop}
use stacx.Outputs.Light.Flashing.{level_after, light_loop-flashes}
use stacx.Outputs.Light.Restoring.{restore, restore-light_status}

abbrev beacon : Light
beacon = record {
  state = true;
  flash_rate = pos 1000;
  flash_duty = pos 25;
  persists = false;
  pubsub_persist = true;
  pin_invert = true;
  extender = [];
  extender_pin = [];
}

abbrev porch : Light
porch = record beacon { state = false; flash_rate = pos 0; flash_duty = pos 50 }

light_loop-flashes_example :
    (v : LightServed) × (light_loop 4300 beacon ≡ ok v)
    × (v.light.state ≡ false)
    × (level_after false v.outputs ≡ true)
light_loop-flashes_example =
    light_loop-flashes beacon false 4300 1000 25 refl refl refl (omega arith) (inr (omega arith))
      refl

-- A rate of 17 hours at half a duty.
too_slow :
    light_loop 0 (record beacon { flash_rate = pos 63072000; flash_duty = pos 50 })
    ≡ fault int_overflow
unfolding light_loop
too_slow = refl

restore-light_status_example :
    ((restore (light_status beacon) porch).state ≡ false)
    × ((restore (light_status beacon) porch).flash_rate ≡ pos 1000)
    × ((restore (light_status beacon) porch).flash_duty ≡ pos 25)
restore-light_status_example = restore-light_status beacon porch (omega arith) (omega arith)

-- A blip leaves the pins off, also of a light that is on.
blip_ends_dark : level_after false ((blip_light (pos 100) beacon).outputs) ≡ false
unfolding blip_light level_after
blip_ends_dark = refl

dark_after_blip : blip_stop beacon ≡ drive true ∷ []
unfolding blip_stop
dark_after_blip = refl
