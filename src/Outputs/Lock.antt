-- ===== src/Outputs/Lock.antt =====
-- The lock (leaf_lock.h). Times are millis(), of 32 bits.
pub mod Timing
pub mod Extending
pub mod Tests
use stacx.Prelude.{
  ℕ, ◌+◌, ◌*◌, ◌%◌, ◌^◌, Bool, true, false, not, ◌&&◌, ◌||◌, Option, none, some, [], ◌∷◌, List,
  if◌then◌else◌, leb, ltb,
}
use stacx.Prelude.Text.{Text, lit, text_eq, not_empty}
use stacx.Prelude.Int.{ℤ, pos, negsuc, int_eq}
use stacx.Prelude.Number.{to_int}
use stacx.Prelude.Bits.{xor}
use stacx.Words.{Parsed, parse_bool}
use stacx.Outputs.{Output, drive, tell, report, extender_of}

-- `lock_state` and `standby` are values of the leaf, which a message sets before the leaf hears of it.
pub record Lock : Type 0 where
  pub standby : Bool
  pub timed_unlock : Bool
  pub lock_state : Bool
  pub fail_state : Bool
  pub invert : Bool
  pub timed_unlock_end : ℕ
  pub extender : Text
  pub extender_pin : Text

-- The lock, what it did, and whether the message was handled here.
pub record LockServed : Type 0 where
  pub lock : Lock
  pub outputs : List Output
  pub handled : Bool

-- The constructors: a lock on the leaf's own pins has no extender.
unfoldable pub make_lock : Bool → Bool → Lock
make_lock default_state invert_logic = record {
  standby = false;
  timed_unlock = false;
  lock_state = default_state;
  fail_state = default_state;
  invert = invert_logic;
  timed_unlock_end = 0;
  extender = [];
  extender_pin = [];
}

-- The settings of the pins are not passed on by this constructor.
unfoldable pub make_extended_lock : Text → Text → Lock
unfolding make_lock
make_extended_lock target lock_target =
    let (extender, pin) = extender_of target lock_target in
    record (make_lock false false) { extender = extender; extender_pin = pin }

-- A pin of the leaf itself is not inverted.
unfoldable pub relay : Lock → Bool → Output
relay s high =
    if not_empty s.extender_pin
    then tell s.extender (if high then lit "cmd/set" else lit "cmd/clear") s.extender_pin
    else drive high

-- setLock, which leaves `lock_state` as it is; the status is not retained, since `true` is passed as its quality of
-- service.
unfoldable pub set_lock : Lock → Bool → List Output
unfolding relay
set_lock s locked =
    relay s (xor locked s.invert)
    ∷ report (lit "status/lock") (if locked then lit "locked" else lit "unlocked")
    ∷ []

-- mqtt_connect, mqtt_disconnect and status_pub
unfoldable pub lock_connect : Lock → List Output
unfolding set_lock
lock_connect s = set_lock s s.lock_state

unfoldable pub lock_disconnect : Lock → List Output
unfolding set_lock
lock_disconnect s = set_lock s s.fail_state

unfoldable pub lock_status : Lock → List Output
unfolding set_lock
lock_status s = set_lock s s.lock_state

unfoldable pub lock_loop : ℕ → Lock → LockServed
unfolding set_lock
lock_loop now s =
    if not s.standby && s.timed_unlock && leb s.timed_unlock_end now
    then record {
      lock = record s { timed_unlock = false };
      outputs = set_lock s true;
      handled = true;
    }
    else record { lock = s; outputs = []; handled = true }

abbrev pub served : Lock → List Output → LockServed
served s outputs = record { lock = s; outputs = outputs; handled = true }

abbrev pub unserved : Lock → LockServed
unserved s = record { lock = s; outputs = []; handled = false }

-- valueChangeHandler, when `value` has been stored
unfoldable pub lock_value_change : Text → Bool → Lock → LockServed
unfolding set_lock
lock_value_change topic value s =
    if text_eq topic (lit "lock")
    then served s (set_lock s value)
    else if text_eq topic (lit "standby")
    then served s (set_lock s (if value then false else s.lock_state))
    else unserved s

-- An unlock for a number of seconds; the end is computed in 32 bits.
unfoldable pub unlock_for : ℕ → ℤ → Lock → LockServed
unfolding set_lock
unlock_for now (negsuc duration) s = served s []
unlock_for now (pos duration) s =
    if ltb 0 duration
    then served
        (record s { timed_unlock = true; timed_unlock_end = (now + 1000 * duration) % 2 ^ 32 })
        (set_lock s false)
    else served s []

-- commandHandler, before the class Leaf
unfoldable pub lock_command : ℕ → Text → Text → Lock → LockServed
unfolding set_lock unlock_for
lock_command now topic payload s =
    if text_eq topic (lit "lock") && not s.standby
    then served s (set_lock s true)
    else if text_eq topic (lit "unlock") && not s.standby
    then unlock_for now (to_int payload) s
    else unserved s

-- parseBool with the words of a lock
unfoldable pub parse_lock : Text → Bool → Parsed
parse_lock value default_value =
    if text_eq value (lit "unlocked") || text_eq value (lit "open")
    then record { value = false; valid = true }
    else if text_eq value (lit "locked") || text_eq value (lit "closed")
    then record { value = true; valid = true }
    else parse_bool value default_value

-- mqtt_receive: only 1 is locked. The result of the class Leaf for other topics is dropped.
unfoldable pub lock_receive : Text → Text → Lock → LockServed
unfolding set_lock
lock_receive topic payload s =
    let locked = int_eq (to_int payload) (pos 1) in
    if text_eq topic (lit "status/lock")
    then served s (if xor locked s.lock_state then set_lock s locked else [])
    else unserved s
