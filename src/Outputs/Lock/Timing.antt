-- ===== src/Outputs/Lock/Timing.antt =====
-- A lock that is opened for a time (leaf_lock.h: `commandHandler`, `loop`).
use stacx.Prelude.{
  ℕ, ◌+◌, ◌*◌, ◌%◌, ◌^◌, ◌<◌, ◌≡◌, refl, true, false, [], if◌then◌else◌, leb, ltb, Bool-cases, inl,
  inr, arith,
}
use stacx.Prelude.Text.{Text, lit}
use stacx.Prelude.Int.{pos}
use stacx.Prelude.Number.{to_int}
use stacx.Outputs.Lock.{Lock, set_lock, relay, lock_command, unlock_for, lock_loop}

-- The command to unlock for d seconds opens the lock at once, and the loop closes it at the first round from d
-- seconds later on and does nothing before, if the lock is not in standby, d is above zero and the clock does not wrap
-- until then.
pub lock_command-expires :
    (s : Lock) (now later d : ℕ) (payload : Text)
    → s.standby ≡ false
    → to_int payload ≡ pos d
    → ltb 0 d ≡ true
    → now + 1000 * d < 2 ^ 32
    → ((lock_command now (lit "unlock") payload s).outputs ≡ set_lock s false)
      × ((lock_loop later (lock_command now (lit "unlock") payload s).lock).outputs
          ≡ (if leb (now + 1000 * d) later then set_lock s true else []))
      × ((lock_loop later (lock_command now (lit "unlock") payload s).lock).lock.timed_unlock
          ≡ ltb later (now + 1000 * d))
unfolding lock_command unlock_for lock_loop set_lock relay
lock_command-expires s now later d payload active seconds some_time no_wrap =
    let same : (now + 1000 * d) % 2 ^ 32 ≡ now + 1000 * d = omega arith in
    elim (Bool-cases (leb (now + 1000 * d) later)) [
      | inl over ↦
          simp (lock_command, active, seconds, unlock_for, some_time, lock_loop, same, over)
            (refl, refl, ground arith)
      | inr running ↦
          simp (lock_command, active, seconds, unlock_for, some_time, lock_loop, same, running)
            (refl, refl, ground arith)
    ]
