-- ===== src/Core/Blink/Counting.antt =====
-- How often an error code is shown (stacx.h: `post_error`, `helloUpdate`).
use stacx.Prelude.{
  Bool, ◌-◌, ◌^◌, ℕ, suc, zero, ◌+◌, ◌*◌, ◌<◌, ◌==◌, ◌≡◌, sym, ap, ◌∙◌, true, false, [], ◌∷◌, List,
  if◌then◌else◌, ltb, leb, arith,
}
use stacx.Prelude.Int.{pos}
use stacx.Fault.{ok, fault, out_of_bounds}
use stacx.Core.Blink.{
  Pattern, Blinker, error_names, post_error, starting, Phase, interval, idle, blink_on, inter_rep,
  LedEffect, hello_on, hello_off, detach_timers, blink_every, update_in, off_in, LedStep,
  hello_update,
}

-- How often the light is turned on among some effects.
unfoldable pub flashes : List LedEffect → ℕ
flashes [] = 0
flashes (hello_on ∷ es) = suc (flashes es)
flashes (hello_off ∷ es) = flashes es
flashes (detach_timers ∷ es) = flashes es
flashes (blink_every n ∷ es) = flashes es
flashes (update_in n ∷ es) = flashes es
flashes (off_in n ∷ es) = flashes es

-- The timer fires n times: the machine then, and the flashes meanwhile.
unfoldable pub run_updates : Pattern → ℕ → Blinker → Blinker × ℕ
unfolding hello_update flashes
run_updates c zero s = (s, 0)
run_updates c (suc n) s =
    let (next, effects) = hello_update c s in
    let (last, more) = run_updates c n next in (last, flashes effects + more)

-- The updates of d further blinks and of the end of a repetition, before n others.
abbrev blink_ticks : ℕ → ℕ → ℕ
blink_ticks zero n = suc (suc n)
blink_ticks (suc d) n = suc (suc (blink_ticks d n))

-- The updates of k further repetitions of d + 1 blinks after the current one.
abbrev rep_ticks : ℕ → ℕ → ℕ
rep_ticks d zero = blink_ticks d 1
rep_ticks d (suc k) = blink_ticks d (suc (rep_ticks d k))

abbrev add_flashes : ℕ → Blinker × ℕ → Blinker × ℕ
add_flashes k (s, n) = (s, k + n)

add_flashes-zero : (t : Blinker × ℕ) → add_flashes 0 t ≡ t
add_flashes-zero (s, n) = let same : 0 + n ≡ n = omega arith in ap (λ m. (s, m)) same

module _ (c : Pattern) (e r : ℕ) where
  -- While the error code e is shown r times.
  abbrev showing : Phase → ℕ → ℕ → Blinker
  showing p rep blink = record {
    phase = p;
    post_error_code = e;
    post_error_reps = pos r;
    post_rep = rep;
    post_blink = blink;
  }

  abbrev counted : ℕ → LedStep → Blinker × ℕ
  counted n step = add_flashes (flashes step.1) (run_updates c n step.0)

  -- The last blink of a repetition, and one that others follow.
  last_blink :
      (n rep : ℕ)
      → run_updates c (suc (suc n)) (showing blink_on rep e)
        ≡ run_updates c n (showing inter_rep rep (suc e))
  unfolding run_updates hello_update flashes
  last_blink n rep =
      let over : ltb e (suc e) ≡ true = ground arith in
      ap
        (λ b. add_flashes 0 (
          counted n (
            if b
            then (showing inter_rep rep (suc e), update_in 1000 ∷ [])
            else (showing blink_on rep (suc e), hello_on ∷ update_in 200 ∷ []))))
        over
      ∙ add_flashes-zero (add_flashes 0 (run_updates c n (showing inter_rep rep (suc e))))
      ∙ add_flashes-zero (run_updates c n (showing inter_rep rep (suc e)))

  another_blink :
      (n rep b : ℕ)
      → b < e
      → run_updates c (suc (suc n)) (showing blink_on rep b)
        ≡ add_flashes 1 (run_updates c n (showing blink_on rep (suc b)))
  unfolding run_updates hello_update flashes
  another_blink n rep b lt =
      let more : ltb e (suc b) ≡ false = ground arith in
      ap
        (λ t. add_flashes 0 (
          counted n (
            if t
            then (showing inter_rep rep (suc b), update_in 1000 ∷ [])
            else (showing blink_on rep (suc b), hello_on ∷ update_in 200 ∷ []))))
        more
      ∙ add_flashes-zero (add_flashes 1 (run_updates c n (showing blink_on rep (suc b))))

  -- The end of the last repetition, and of one that others follow.
  last_repetition : (b : ℕ) → run_updates c 1 (showing inter_rep r b) ≡ (showing idle (suc r) b, 0)
  unfolding run_updates hello_update flashes
  last_repetition b =
      let over : leb (suc r) r ≡ false = ground arith in
      ap
        (λ t. counted 0 (
          if t
          then (showing blink_on (suc r) 1, hello_on ∷ update_in 200 ∷ [])
          else (showing idle (suc r) b, blink_every (interval c) ∷ [])))
        over

  another_repetition :
      (n rep b : ℕ)
      → rep < r
      → run_updates c (suc n) (showing inter_rep rep b)
        ≡ add_flashes 1 (run_updates c n (showing blink_on (suc rep) 1))
  unfolding run_updates hello_update flashes
  another_repetition n rep b lt =
      let more : leb (suc rep) r ≡ true = ground arith in
      ap
        (λ t. counted n (
          if t
          then (showing blink_on (suc rep) 1, hello_on ∷ update_in 200 ∷ [])
          else (showing idle (suc rep) b, blink_every (interval c) ∷ [])))
        more

  -- A whole repetition, from its d further blinks.
  repetition :
      (d n rep b : ℕ)
      → b + d ≡ e
      → run_updates c (blink_ticks d n) (showing blink_on rep b)
        ≡ add_flashes d (run_updates c n (showing inter_rep rep (suc e)))
  repetition zero n rep b sum =
      let same : b ≡ e = omega arith in
      ap (λ k. run_updates c (suc (suc n)) (showing blink_on rep k)) same
      ∙ last_blink n rep
      ∙ sym (add_flashes-zero (run_updates c n (showing inter_rep rep (suc e))))
  repetition (suc d) n rep b sum =
      let lt : b < e = omega arith in
      let rest : suc b + d ≡ e = omega arith in
      let (last, more) = run_updates c n (showing inter_rep rep (suc e)) in
      let total : 1 + (d + more) ≡ suc d + more = omega arith in
      another_blink (blink_ticks d n) rep b lt
      ∙ ap (add_flashes 1) (repetition d n rep (suc b) rest)
      ∙ ap (λ m. (last, m)) total

  -- k further repetitions after the current one.
  repetitions :
      (d k rep : ℕ)
      → 1 + d ≡ e
      → rep + k ≡ r
      → run_updates c (rep_ticks d k) (showing blink_on rep 1)
        ≡ (showing idle (suc r) (suc e), d + k * e)
  repetitions d zero rep blinks sum =
      let same : rep ≡ r = omega arith in
      let total : d + 0 ≡ d + 0 * e = omega arith in
      repetition d 1 rep 1 blinks
      ∙ ap (λ k. add_flashes d (run_updates c 1 (showing inter_rep k (suc e)))) same
      ∙ ap (add_flashes d) (last_repetition (suc e))
      ∙ ap (λ m. (showing idle (suc r) (suc e), m)) total
  repetitions d (suc k) rep blinks sum =
      let lt : rep < r = omega arith in
      let rest : suc rep + k ≡ r = omega arith in
      let total : d + (1 + (d + k * e)) ≡ d + suc k * e = grind arith in
      repetition d (suc (rep_ticks d k)) rep 1 blinks
      ∙ ap (add_flashes d) (
          another_repetition (rep_ticks d k) rep (suc e) lt
          ∙ ap (add_flashes 1) (repetitions d k (suc rep) blinks rest))
      ∙ ap (λ m. (showing idle (suc r) (suc e), m)) total

blink_ticks-count : (d n : ℕ) → blink_ticks d n ≡ 2 * suc d + n
blink_ticks-count zero n = omega arith
blink_ticks-count (suc d) n =
    let rest : blink_ticks d n ≡ 2 * suc d + n = blink_ticks-count d n in omega arith

rep_ticks-count : (d k : ℕ) → rep_ticks d k ≡ suc k * (2 * suc d + 1)
rep_ticks-count d zero =
    let whole : blink_ticks d 1 ≡ 2 * suc d + 1 = blink_ticks-count d 1 in grind arith
rep_ticks-count d (suc k) =
    let rest : rep_ticks d k ≡ suc k * (2 * suc d + 1) = rep_ticks-count d k in
    let whole : blink_ticks d (suc (rep_ticks d k)) ≡ 2 * suc d + suc (rep_ticks d k) =
      blink_ticks-count d (suc (rep_ticks d k)) in
    grind arith

-- From any state, an error code e from 1 to 12 that post_error is to show r times, r at least 1 and below the largest
-- int, is shown and over after exactly 1 + r * (2 * e + 1) updates by the timer: the state machine is idle
-- again, and the light was turned on e * r times meanwhile. (The codes past POST_ERROR_CAMERA, from 7 on, are
-- blinked too.)
pub post_error-finishes :
    (c : Pattern) (e r : ℕ) (s : Blinker)
    → 0 < e
    → e < error_names
    → 0 < r
    → r < 2 ^ 31 - 1
    → (begun : LedStep) × (post_error c e (pos r) s ≡ ok begun)
      × (run_updates c (1 + r * (2 * e + 1)) begun.0 ≡ (
        record {
          phase = idle;
          post_error_code = e;
          post_error_reps = pos r;
          post_rep = suc r;
          post_blink = suc e;
        },
        r * e,
      ))
unfolding run_updates hello_update flashes post_error
post_error-finishes c (suc d) (suc k) s e_pos e_named r_pos r_small =
    let ticks : 1 + suc k * (2 * suc d + 1) ≡ suc (rep_ticks d k) =
      let count = rep_ticks-count d k in omega arith in
    let total : 1 + (d + k * suc d) ≡ suc k * suc d = grind arith in
    let named : leb error_names (suc d) ≡ false = ground arith in
    let shown : (suc k == 0) ≡ false = ground arith in
    let begun : Blinker = record s {
      post_error_reps = pos (suc k);
      post_error_code = suc d;
      phase = starting;
    } in
    let first = hello_update c begun in
    let asked = λ (b : Bool). if b then ok (s, []) else ok first in
    (
      first,
      ap (λ b. if b then fault out_of_bounds else asked (suc k == 0)) named ∙ ap asked shown,
      ap (λ n. run_updates c n first.0) ticks
          ∙ ap (add_flashes 1) (repetitions c (suc d) (suc k) d k 1 (omega arith) (omega arith))
          ∙ ap (λ m. (showing c (suc d) (suc k) idle (suc (suc k)) (suc (suc d)), m)) total,
    )
post_error-finishes c zero r s e_pos e_named r_pos r_small = absurd (omega arith)
post_error-finishes c (suc d) zero s e_pos e_named r_pos r_small = absurd (omega arith)
