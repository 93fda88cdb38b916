-- ===== src/Core/History.antt =====
-- The history of the error codes of each device, newest first (stacx.h: `post_error_history_reset`,
-- `post_error_history_entry`, `post_error_history_update`). A char is a number below 256.
pub mod Shifting
pub mod Tests
use stacx.Prelude.{
  ℕ, suc, zero, ◌+◌, ◌*◌, ◌%◌, ◌-◌, Option, none, some, [], ◌∷◌, List, get_elem?, set,
  if◌then◌else◌, leb,
}
use stacx.Prelude.Int.{ℤ, pos, negsuc, int_leb}
use stacx.Fault.{Result, ok, fault, out_of_bounds, ◌>>=◌}

-- POST_ERROR_HISTORY_PERDEV
abbrev pub per_device : ℕ
per_device = 5

abbrev zeros : ℕ → List ℕ
zeros zero = []
zeros (suc n) = 0 ∷ zeros n

-- For a number of devices, POST_DEV_MAX.
unfoldable pub history_reset : ℕ → List ℕ
history_reset devices = zeros (per_device * devices)

abbrev pub read_found : Option ℕ → Result ℕ
read_found none = fault out_of_bounds
read_found (some c) = ok c

abbrev pub read_at : List ℕ → ℕ → Result ℕ
read_at h i = read_found (get_elem? h i)

abbrev pub write_found : Option ℕ → List ℕ → ℕ → ℕ → Result (List ℕ)
write_found none h i c = fault out_of_bounds
write_found (some old) h i c = ok (set h i c)

abbrev pub write_at : List ℕ → ℕ → ℕ → Result (List ℕ)
write_at h i c = write_found (get_elem? h i) h i c

-- A position below 0 is that of a device before.
abbrev entry_index : ℕ → ℤ → ℤ
entry_index dev (pos i) = pos (per_device * dev + i)
entry_index dev (negsuc i) =
    if leb (suc i) (per_device * dev) then pos (per_device * dev - suc i) else negsuc i

abbrev clamped : ℤ → ℤ
clamped i = if int_leb (pos per_device) i then pos 4 else i

abbrev pub read_entry : List ℕ → ℤ → Result ℕ
read_entry h (negsuc i) = fault out_of_bounds
read_entry h (pos i) = read_at h i >>= (λ c. ok ((c + (256 - 48)) % 256))

unfoldable pub history_entry : ℕ → ℤ → List ℕ → Result ℕ
history_entry dev i h = read_entry h (entry_index dev (clamped i))

-- The rounds of the loop from i down to 1, after the place of the device.
unfoldable pub shift_up : ℕ → ℕ → List ℕ → Result (List ℕ)
shift_up devpos zero h = ok h
shift_up devpos (suc i) h =
    read_at h (devpos + i) >>= (λ c. write_at h (devpos + suc i) c >>= (λ g. shift_up devpos i g))

unfoldable pub history_update : ℕ → ℕ → List ℕ → Result (List ℕ)
unfolding shift_up
history_update dev err h =
    shift_up (dev * per_device) 4 h >>= (λ g. write_at g (dev * per_device) ((48 + err) % 256))
