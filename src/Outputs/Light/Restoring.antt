-- ===== src/Outputs/Light/Restoring.antt =====
-- A light that is restored from what the broker has retained (leaf_light.h: `status_pub`, `mqtt_receive`).
use stacx.Prelude.{
  ◌≡◌, refl, sym, ◌∙◌, Bool, true, false, [], ◌∷◌, List, if◌then◌else◌, Bool-cases, inl, inr,
}
use stacx.Prelude.Text.{Text, lit}
use stacx.Prelude.Number.{IsLong, to_int-show_int}
use stacx.Prelude.Bits.{xor}
use stacx.Words.{parse_payload_bool}
use stacx.Outputs.{Output, drive, tell, report, retain, keep, wait_ms}
use stacx.Outputs.Light.{
  Light, light_status, light_receive, take_status, set_light, parse_light, is_flashing, lit_word,
}

-- The retained messages arrive in the order in which they were sent.
unfoldable pub restore : List Output → Light → Light
unfolding light_receive
restore [] t = t
restore (retain topic payload ∷ es) t = restore es (light_receive topic payload t).light
restore (drive level ∷ es) t = restore es t
restore (tell target topic payload ∷ es) t = restore es t
restore (report topic payload ∷ es) t = restore es t
restore (keep n ∷ es) t = restore es t
restore (wait_ms n ∷ es) t = restore es t

abbrev status_light : Text → Light → Light
status_light payload t = (light_receive (lit "status/light") payload t).light

xor-same : (a b : Bool) → xor a b ≡ false → b ≡ a
xor-same true true h = refl
xor-same true false h = sym h
xor-same false true h = h
xor-same false false h = refl

take_status-state :
    (on : Bool) (t : Light)
    → ((take_status on t).light.state ≡ on)
      × ((take_status on t).light.flash_rate ≡ t.flash_rate)
      × ((take_status on t).light.flash_duty ≡ t.flash_duty)
unfolding take_status set_light
take_status-state on t = elim (Bool-cases (xor on t.state)) [
  | inl new ↦ simp new (refl, refl, refl)
  | inr same ↦ simp same (xor-same on t.state same, refl, refl)
]

status_light-state :
    (payload : Text) (t : Light)
    → ((status_light payload t).state ≡ parse_light payload)
      × ((status_light payload t).flash_rate ≡ t.flash_rate)
      × ((status_light payload t).flash_duty ≡ t.flash_duty)
unfolding light_receive
status_light-state payload t = take_status-state (parse_light payload) t

parse_light-lit_word : (b : Bool) → parse_light (lit_word b) ≡ b
unfolding parse_light parse_payload_bool
parse_light-lit_word true = refl
parse_light-lit_word false = refl

-- A light that receives the status that another light published, in order, takes over the state of a light that does not
-- flash and keeps its own flash, and takes over the rate and the duty cycle of one that does, if they are 32-bit
-- numbers, and is off.
pub restore-light_status :
    (s t : Light)
    → IsLong s.flash_rate
    → IsLong s.flash_duty
    → ((restore (light_status s) t).state ≡ (if is_flashing s then false else s.state))
      × ((restore (light_status s) t).flash_rate
          ≡ (if is_flashing s then s.flash_rate else t.flash_rate))
      × ((restore (light_status s) t).flash_duty
          ≡ (if is_flashing s then s.flash_duty else t.flash_duty))
unfolding restore light_status parse_payload_bool
restore-light_status s t long_rate long_duty = elim (Bool-cases (is_flashing s)) [
  | inl flashing ↦
      let (state, rate, duty) = status_light-state (lit "flash") t in
      simp flashing
        (state, to_int-show_int s.flash_rate long_rate, to_int-show_int s.flash_duty long_duty)
  | inr steady ↦
      let (state, rate, duty) = status_light-state (lit_word s.state) t in
      simp steady (state ∙ parse_light-lit_word s.state, rate, duty)
]
