-- ===== src/Core/History/Tests.antt =====
-- Examples of the history of the error codes.
use stacx.Prelude.{◌≡◌, refl, [], ◌∷◌}
use stacx.Prelude.Int.{pos, negsuc}
use stacx.Fault.{ok, fault, out_of_bounds}
use stacx.Core.History.{history_reset, history_entry, history_update, shift_up}
use stacx.Core.History.Shifting.{history_update-shifts}

-- A code that was never recorded.
unrecorded : history_entry 0 (pos 2) (history_reset 1) ≡ ok 208
unfolding history_entry history_reset
unrecorded = refl

-- A position past the end is that of the oldest code, and one below 0 is not on record.
oldest : history_entry 0 (pos 9) (49 ∷ 50 ∷ 51 ∷ 52 ∷ 53 ∷ []) ≡ ok 5
unfolding history_entry
oldest = refl

before_first : history_entry 0 (negsuc 0) (history_reset 1) ≡ fault out_of_bounds
unfolding history_entry history_reset
before_first = refl

no_such_device : history_update 1 3 (history_reset 1) ≡ fault out_of_bounds
unfolding history_update shift_up history_reset
no_such_device = refl

-- An error of the modem on the second of two devices.
history_update-shifts_example :
    history_update 1 3 (0 ∷ 0 ∷ 0 ∷ 0 ∷ 0 ∷ 49 ∷ 50 ∷ 51 ∷ 52 ∷ 53 ∷ [])
    ≡ ok (0 ∷ 0 ∷ 0 ∷ 0 ∷ 0 ∷ 51 ∷ 49 ∷ 50 ∷ 51 ∷ 52 ∷ [])
history_update-shifts_example =
    history_update-shifts 1 3 (0 ∷ 0 ∷ 0 ∷ 0 ∷ 0 ∷ []) [] 49 50 51 52 53 refl
