-- ===== src/Core/Blink.antt =====
-- The status light (stacx.h: `post_error`, `helloUpdate`, `hello_on_blinking`). An error code is blinked by a
-- state machine that a timer drives; otherwise the light blinks at the rate of the idle pattern.
pub mod Counting
pub mod Tests
use stacx.Prelude.{
  ℕ, suc, ◌*◌, ◌/◌, ◌+◌, ◌==◌, Bool, true, false, not, ◌||◌, [], ◌∷◌, List, if◌then◌else◌, ltb, leb,
}
use stacx.Fault.{Result, ok, fault, out_of_bounds}
use stacx.Prelude.Int.{ℤ, pos, negsuc, int_leb, int_eq}

-- enum post_error_state
pub data Phase : Type 0 where
  idle starting initial_off blink_on blink_off inter_rep : Phase

-- The light, the periodic timers, and the one-shot timers of helloUpdate and of hello_off.
pub data LedEffect : Type 0 where
  hello_on hello_off detach_timers : LedEffect
  blink_every : ℕ → LedEffect
  update_in : ℕ → LedEffect
  off_in : ℕ → LedEffect

-- `do_blink` is what the build decides: a status pin, or a status pixel that blinks. The rate in milliseconds
-- and the duty in percent are int; below zero they are not represented.
pub record Pattern : Type 0 where
  pub identify : Bool
  pub do_blink : Bool
  pub blink_rate : ℕ
  pub blink_duty : ℕ
  pub has_fault_code : Bool

abbrev pub identify_interval : ℕ
identify_interval = 1000

-- The error code with its repetitions, and the two counters that helloUpdate keeps.
pub record Blinker : Type 0 where
  pub phase : Phase
  pub post_error_code : ℕ
  pub post_error_reps : ℤ
  pub post_rep : ℕ
  pub post_blink : ℕ

abbrev pub LedStep : Type 0
LedStep = Blinker × List LedEffect

abbrev pub interval : Pattern → ℕ
interval c = if c.identify then identify_interval else c.blink_rate

-- Without an error code to blink.
abbrev resume : Pattern → List LedEffect
resume c =
    if c.has_fault_code
    then []
    else (if c.identify || c.do_blink
        then detach_timers ∷ blink_every (interval c) ∷ []
        else detach_timers ∷ hello_on ∷ [])

-- One update in each phase.
abbrev update_in_phase : Pattern → Phase → Blinker → LedStep
update_in_phase c idle s = (s, resume c)
update_in_phase c starting s =
    (record s { phase = initial_off }, hello_off ∷ detach_timers ∷ update_in 1000 ∷ [])
update_in_phase c initial_off s =
    (record s { phase = blink_on; post_rep = 1; post_blink = 1 }, hello_on ∷ update_in 200 ∷ [])
update_in_phase c blink_on s = (record s { phase = blink_off }, hello_off ∷ update_in 200 ∷ [])
update_in_phase c blink_off s =
    let counted : Blinker = record s { post_blink = suc s.post_blink } in
    if ltb s.post_error_code (suc s.post_blink)
    then (record counted { phase = inter_rep }, update_in 1000 ∷ [])
    else (record counted { phase = blink_on }, hello_on ∷ update_in 200 ∷ [])
update_in_phase c inter_rep s =
    let counted : Blinker = record s { post_rep = suc s.post_rep } in
    if int_leb (pos (suc s.post_rep)) s.post_error_reps
    then (record counted { phase = blink_on; post_blink = 1 }, hello_on ∷ update_in 200 ∷ [])
    else (record counted { phase = idle }, blink_every (interval c) ∷ [])

unfoldable pub hello_update : Pattern → Blinker → LedStep
hello_update c s = update_in_phase c s.phase s

-- The number of entries of post_error_names.
abbrev pub error_names : ℕ
error_names = 13

-- post_error reads the name of the error first; a count of 0 is not shown. The entry in the history, and the red
-- colour of a status pixel, are not part of this state.
unfoldable pub post_error : Pattern → ℕ → ℤ → Blinker → Result LedStep
unfolding hello_update
post_error c err count s =
    if leb error_names err
    then fault out_of_bounds
    else if int_eq count (pos 0)
    then ok (s, [])
    else ok (
        hello_update c
          (record s { post_error_reps = count; post_error_code = err; phase = starting }))

abbrev is_idle : Phase → Bool
is_idle idle = true
is_idle other = false

-- An error code is not disturbed.
unfoldable pub hello_on_blinking : Pattern → Blinker → List LedEffect
hello_on_blinking c s =
    let flip = if c.identify then identify_interval / 2 else c.blink_rate * c.blink_duty / 100 in
    if is_idle s.phase
    then (if c.identify || ltb 0 c.blink_duty
        then hello_on ∷ off_in flip ∷ []
        else off_in flip ∷ [])
    else []
