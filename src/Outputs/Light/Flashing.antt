-- ===== src/Outputs/Light/Flashing.antt =====
-- A light that flashes (leaf_light.h: `loop`).
use stacx.Prelude.{
  subst, sym, ◌⊎◌, ◌^◌, ap, ◌%◌, arith, leb, ltb, ◌<◌, ◌≤◌, ℕ, ◌==◌, ◌*◌, ◌/◌, ◌∙◌, ◌≡◌, refl, Bool,
  true, false, not, [], ◌∷◌, List, if◌then◌else◌, Bool-cases, inl, inr,
}
use stacx.Fault.{Result, ok}
use stacx.Prelude.Text.{not_empty}
use stacx.Prelude.Int.{pos}
use native.Mathlib.Nat.{mod-lt}
use stacx.Outputs.{Output, drive, tell, report, retain, keep, wait_ms}
use stacx.Outputs.Light.{
  light_served, by_rate, flash_loop, light_loop, Light, LightServed, set_light, light_relay,
  light_status, flash, is_flashing,
}

-- The level of the pins after some effects.
unfoldable pub level_after : Bool → List Output → Bool
level_after level [] = level
level_after level (drive now ∷ es) = level_after now es
level_after level (tell target topic payload ∷ es) = level_after level es
level_after level (report topic payload ∷ es) = level_after level es
level_after level (retain topic payload ∷ es) = level_after level es
level_after level (keep n ∷ es) = level_after level es
level_after level (wait_ms n ∷ es) = level_after level es

-- The level that shows a state.
abbrev pub level_of : Light → Bool → Bool
level_of s on = if on then not s.pin_invert else s.pin_invert

-- The light is in a state, and the pins show it.
Shines : Light → Bool → Bool → LightServed → Type 0
Shines s on level r = (r.light.state ≡ on) × (level_after level r.outputs ≡ level_of s on)

light_status-silent : (s : Light) (level : Bool) → level_after level (light_status s) ≡ level
unfolding light_status level_after
light_status-silent s level = elim (Bool-cases (is_flashing s)) [
  | inl flashing ↦ simp (light_status, flashing)
  | inr steady ↦ simp (light_status, steady)
]

light_relay-level :
    (s : Light) (on level : Bool) (es : List Output)
    → not_empty s.extender_pin ≡ false
    → level_after level (light_relay s on ∷ es) ≡ level_after (level_of s on) es
unfolding light_relay level_after
light_relay-level s true level es own = simp (light_relay, own)
light_relay-level s false level es own = simp (light_relay, own)

full_cycle : (now r d : ℕ) → 100 ≤ d → 0 < r → ltb (now % r) (r * d / 100) ≡ true
full_cycle now r d full some_rate =
    let below = mod-lt now some_rate in
    let enough : r * 100 ≤ r * d = grind arith in ground (arith, below, enough)

set_light-Shines :
    (s : Light) (on level : Bool)
    → not_empty s.extender_pin ≡ false
    → Shines s on level (set_light on s)
unfolding set_light Shines level_after
set_light-Shines s on level own =
    let silent = light_status-silent (record s { state = on }) (level_of s on) in
    (
      refl,
      elim (Bool-cases s.persists) [
        | inl kept ↦ light_relay-level s on level _ own ∙ simp kept silent
        | inr lost ↦ light_relay-level s on level _ own ∙ simp lost silent
      ],
    )

steady-Shines :
    (s : Light) (level : Bool)
    → level ≡ level_of s s.state
    → Shines s s.state level (light_served s [])
unfolding Shines level_after
steady-Shines s level h = (refl, h)

module _ (s : Light) (level : Bool) (h : level ≡ level_of s s.state) where
  flash-Shines : (on : Bool) → Shines s on level (flash on s)
  unfolding Shines level_after
  flash-Shines true = elim (Bool-cases s.state) [
    | inl shining ↦ simp shining (refl, h ∙ ap (level_of s) shining)
    | inr dark ↦ simp dark (refl, refl)
  ]
  flash-Shines false = elim (Bool-cases s.state) [
    | inl shining ↦ simp shining (refl, refl)
    | inr dark ↦ simp dark (refl, h ∙ ap (level_of s) dark)
  ]

  -- The two steady cycles.
  on-Shines :
      not_empty s.extender_pin ≡ false
      → Shines s true level (if s.state then light_served s [] else set_light true s)
  unfolding Shines level_after
  on-Shines own = elim (Bool-cases s.state) [
    | inl shining ↦ simp shining (refl, h ∙ ap (level_of s) shining)
    | inr dark ↦ simp dark (set_light-Shines s true level own)
  ]

  off-Shines :
      not_empty s.extender_pin ≡ false
      → Shines s false level (if s.state then set_light false s else light_served s [])
  unfolding Shines level_after
  off-Shines own = elim (Bool-cases s.state) [
    | inl shining ↦ simp shining (set_light-Shines s false level own)
    | inr dark ↦ simp dark (refl, h ∙ ap (level_of s) dark)
  ]

  -- The loop is served without an overflow, and the light is in a state that the pins show.
  Serves : Bool → Result LightServed → Type 0
  Serves on r = (v : LightServed) × (r ≡ ok v) × Shines s on level v

  flash_loop-Serves :
      (now r d : ℕ)
      → not_empty s.extender_pin ≡ false
      → 0 < r
      → (100 ≤ d) ⊎ (r * d < 2 ^ 31)
      → Serves (ltb (now % r) (r * d / 100)) (flash_loop now r (pos d) s)
  unfolding Serves
  flash_loop-Serves now r d own some_rate fits = elim (Bool-cases (d == 0)) [
    | inl never ↦
        let off : ltb (now % r) (r * d / 100) ≡ false = ground arith in
        simp (never, off) (_, refl, off-Shines own)
    | inr sometimes ↦ elim (Bool-cases (leb 100 d)) [
      | inl always ↦
          simp (sometimes, always, full_cycle now r d (ground arith) some_rate)
            (_, refl, on-Shines own)
      | inr cycle ↦
          let small : ltb (r * d) (2 ^ 31) ≡ true = ground arith in
          simp (sometimes, cycle, small) (_, refl, flash-Shines (ltb (now % r) (r * d / 100)))
    ]
  ]

light_loop-flash_loop :
    (s : Light) (now r d : ℕ)
    → s.flash_rate ≡ pos r
    → s.flash_duty ≡ pos d
    → 0 < r
    → light_loop now s ≡ flash_loop now r (pos d) s
unfolding light_loop
light_loop-flash_loop s now r d rate duty some_rate =
    let nonzero : (r == 0) ≡ false = ground arith in
    ap (λ x. by_rate now x s) rate
    ∙ ap (λ b. if b then ok (light_served s []) else flash_loop now r s.flash_duty s) nonzero
    ∙ ap (λ x. flash_loop now r x s) duty

-- A light with a rate r above zero and a duty of d percent, not below zero, is on after a round of the loop exactly in the
-- first d hundredths of each r milliseconds (never at 0 and always at 100 percent or more), and its pins show the
-- state, with regard to their inversion, if they showed it before; the light hangs on the leaf's own pins, and
-- below 100 percent the product r * d is within the range of an int, without which the round is undefined.
pub light_loop-flashes :
    (s : Light) (level : Bool) (now r d : ℕ)
    → not_empty s.extender_pin ≡ false
    → s.flash_rate ≡ pos r
    → s.flash_duty ≡ pos d
    → 0 < r
    → (100 ≤ d) ⊎ (r * d < 2 ^ 31)
    → level ≡ level_of s s.state
    → (v : LightServed) × (light_loop now s ≡ ok v)
      × (v.light.state ≡ ltb (now % r) (r * d / 100))
      × (level_after level v.outputs ≡ level_of s (ltb (now % r) (r * d / 100)))
unfolding Serves Shines
light_loop-flashes s level now r d own rate duty some_rate fits h =
    let (v, served, shines) =
      subst (λ t. Serves s level h (ltb (now % r) (r * d / 100)) t)
        (sym (light_loop-flash_loop s now r d rate duty some_rate))
        (flash_loop-Serves s level h now r d own some_rate fits) in
    (v, served, shines.0, shines.1)
