-- ===== src/Core/Blink/Tests.antt =====
-- Examples of the blinking of the status light.
use stacx.Prelude.{◌≡◌, refl, true, false, [], ◌∷◌, ◌*◌, ◌+◌, arith}
use stacx.Prelude.Int.{pos, negsuc}
use stacx.Fault.{ok, fault, out_of_bounds}
use stacx.Core.Blink.{
  Pattern, Blinker, LedStep, initial_off, idle, hello_on, off_in, hello_off, detach_timers,
  update_in, hello_update, post_error, hello_on_blinking,
}
use stacx.Core.Blink.Counting.{flashes, run_updates, post_error-finishes}

abbrev resting : Blinker
resting = record {
  phase = idle;
  post_error_code = 0;
  post_error_reps = pos 0;
  post_rep = 0;
  post_blink = 0;
}

abbrev online_pattern : Pattern
online_pattern = record {
  identify = false;
  do_blink = true;
  blink_rate = 5000;
  blink_duty = 1;
  has_fault_code = false;
}

-- The idle light flashes for a hundredth of its rate, and not during an error code.
glimpse : hello_on_blinking online_pattern resting ≡ hello_on ∷ off_in 50 ∷ []
unfolding hello_on_blinking
glimpse = refl

-- An error code of 3 has begun.
abbrev coded : Blinker
coded = record resting { post_error_reps = pos 1; post_error_code = 3; phase = initial_off }

undisturbed : hello_on_blinking online_pattern coded ≡ []
unfolding hello_on_blinking
undisturbed = refl

begun :
    post_error online_pattern 3 (pos 1) resting
    ≡ ok (coded, hello_off ∷ detach_timers ∷ update_in 1000 ∷ [])
unfolding post_error hello_update
begun = refl

-- POST_ERROR_PUBSUB_LOST has no name.
unnamed : post_error online_pattern 13 (pos 1) resting ≡ fault out_of_bounds
unfolding post_error
unnamed = refl

-- A negative number of repetitions shows the code once.
negative_reps : (run_updates online_pattern 8 (record coded { post_error_reps = negsuc 1 })).1 ≡ 3
unfolding run_updates hello_update flashes
negative_reps = refl

-- POST_ERROR_MODEM twice.
post_error-finishes_example :
    (first : LedStep) × (post_error online_pattern 3 (pos 2) resting ≡ ok first)
    × (run_updates online_pattern (1 + 2 * (2 * 3 + 1)) first.0 ≡ (
      record {
        phase = idle;
        post_error_code = 3;
        post_error_reps = pos 2;
        post_rep = 3;
        post_blink = 4;
      },
      2 * 3,
    ))
post_error-finishes_example =
    post_error-finishes online_pattern 3 2 resting (omega arith) (omega arith) (omega arith)
      (omega arith)
