-- ===== src/Pubsub/Messages.antt =====
-- The messages to the pubsub transport itself (abstract_pubsub.h: `wants_topic`, `mqtt_receive`). What
-- the class Leaf does with the other topics is a parameter.
pub mod Ranges
pub mod Tests
use stacx.Prelude.{
  ℕ, ◌+◌, ◌-◌, ◌/◌, Bool, true, false, not, ◌||◌, ◌&&◌, Option, none, some, [], ◌∷◌, ◌++◌, List,
  if◌then◌else◌, is_some, take, ltb,
}
use stacx.Prelude.Text.{Text, lit, text_eq, not_empty}
use stacx.Prelude.Int.{ℤ, pos, negsuc}
use stacx.Prelude.Number.{to_int, show_int, show_nat}
use stacx.Words.{parse_bool, truth}

-- What a message makes the transport do: a publication, a preference that is saved, the clock that is
-- set from a text of seconds, and its own set-up.
pub data Effect : Type 0 where
  publish save : Text → Text → Effect
  set_time : Text → Effect
  setup : Effect

-- The fields that the messages read and change. `lacks_time` says that the ip leaf has no time source.
pub record Transport : Type 0 where
  pub setup_done : Bool
  pub broker_heartbeat_topic : Text
  pub last_broker_heartbeat : ℕ
  pub has_ip : Bool
  pub lacks_time : Bool
  pub timer_active : Bool
  pub reconnect_due : Bool
  pub device_id : Text
  pub device_id_max : ℕ
  pub autoconnect : Bool
  pub host : Text
  pub port : ℕ
  pub debug_level : ℤ
  pub debug_wait : ℤ
  pub debug_lines : Bool
  pub debug_flush : Bool
  pub mac : Text
  pub build_number : Option Text

pub record Reaction : Type 0 where
  pub handled : Bool
  pub effects : List Effect
  pub after : Transport

abbrev or_nothing : Option Text → Text
or_nothing none = []
or_nothing (some t) = t

abbrev pub is_heartbeat : Transport → Text → Bool
is_heartbeat t topic = not_empty t.broker_heartbeat_topic && text_eq topic t.broker_heartbeat_topic

unfoldable pub wants_topic : (Text → Bool) → Transport → Text → Bool
wants_topic base_wants t topic =
    is_heartbeat t topic
    || (text_eq topic (lit "get/build")
        || text_eq topic (lit "get/uptime")
        || text_eq topic (lit "get/mac")
        || text_eq topic (lit "set/device_id"))
    || base_wants topic

abbrev pub reaction : Transport → List Effect → Reaction
reaction t effects = record { handled = true; effects = effects; after = t }

unfoldable pub receive_heartbeat : ℕ → Transport → Text → Reaction
receive_heartbeat now t payload =
    if t.has_ip && t.lacks_time
    then reaction (record t { last_broker_heartbeat = now; lacks_time = false })
        (set_time payload ∷ [])
    else reaction (record t { last_broker_heartbeat = now }) []

-- A new time source triggers a reconnect that waits.
unfoldable pub receive_time_source : Transport → Reaction
receive_time_source t =
    if t.timer_active
    then reaction (record t { timer_active = false; reconnect_due = true }) []
    else reaction t []

-- The buffer holds `device_id_max` characters with the terminator.
unfoldable pub set_device_id : Transport → Text → Reaction
set_device_id t payload =
    if not_empty payload
    then reaction (record t { device_id = take (t.device_id_max - 1) payload })
        (save (lit "device_id") payload ∷ [])
    else reaction t []

unfoldable pub set_autoconnect : Transport → Text → Reaction
set_autoconnect t payload =
    let on = (parse_bool payload t.autoconnect).value in
    reaction (record t { autoconnect = on })
      (save (lit "pubsub_autoconnect") (if on then lit "on" else lit "off") ∷ [])

unfoldable pub set_host : Transport → Text → Reaction
set_host t payload =
    if not_empty payload
    then reaction (record t { host = payload }) (save (lit "pubsub_host") payload ∷ [])
    else reaction t []

-- (p > 0) && (p < 65536)
unfoldable pub set_port : Transport → Text → Reaction
set_port t payload = elim (to_int payload) [
  | negsuc p ↦ reaction t []
  | pos p ↦
      if ltb 0 p && ltb p 65536
      then reaction (record t { port = p }) (save (lit "pubsub_port") (show_nat p) ∷ [])
      else reaction t []
]

-- i + 1, and i - 1 for a positive i
abbrev increment : ℤ → ℤ
increment (pos n) = pos (n + 1)
increment (negsuc n) = if ltb 0 n then negsuc (n - 1) else pos 0

abbrev is_positive : ℤ → Bool
is_positive (pos n) = ltb 0 n
is_positive (negsuc n) = false

abbrev decrement : ℤ → ℤ
decrement (pos n) = pos (n - 1)
decrement (negsuc n) = negsuc (n + 1)

unfoldable pub set_debug_level : Transport → Text → Reaction
set_debug_level t payload =
    let level =
      if text_eq payload (lit "more")
      then increment t.debug_level
      else if text_eq payload (lit "less") && is_positive t.debug_level
      then decrement t.debug_level
      else to_int payload in
    reaction (record t { debug_level = level })
      (publish (lit "status/debug_level") (show_int level) ∷ [])

-- "on", "true", "1" and the name of the setting itself
abbrev switches_on : Text → Text → Bool
switches_on payload own =
    text_eq payload (lit "on")
    || text_eq payload (lit "true")
    || text_eq payload own
    || text_eq payload (lit "1")

unfoldable pub receive_own : ℕ → Transport → Text → Text → Option Reaction
unfolding receive_heartbeat receive_time_source set_device_id set_autoconnect set_host set_port
    set_debug_level
receive_own now t topic payload =
    if is_heartbeat t topic
    then some (receive_heartbeat now t payload)
    else if text_eq topic (lit "status/time_source")
    then some (receive_time_source t)
    else if text_eq topic (lit "get/build") && is_some t.build_number
    then some (reaction t (publish (lit "status/build") (or_nothing t.build_number) ∷ []))
    else if text_eq topic (lit "get/uptime")
    then some (reaction t (publish (lit "status/uptime") (show_nat (now / 1000)) ∷ []))
    else if text_eq topic (lit "get/mac")
    then some (reaction t (publish (lit "status/mac") t.mac ∷ []))
    else if text_eq topic (lit "set/device_id")
    then some (set_device_id t payload)
    else if text_eq topic (lit "set/pubsub_autoconect")
    then some (set_autoconnect t payload)
    else if text_eq topic (lit "set/pubsub_host")
    then some (set_host t payload)
    else if text_eq topic (lit "set/pubsub_port")
    then some (set_port t payload)
    else if text_eq topic (lit "set/ts")
    then some (reaction t (set_time payload ∷ []))
    else if text_eq topic (lit "get/debug_level")
    then some (reaction t (publish (lit "status/debug_level") (show_int t.debug_level) ∷ []))
    else if text_eq topic (lit "set/debug_level")
    then some (set_debug_level t payload)
    else if text_eq topic (lit "get/debug_wait")
    then some (reaction t (publish (lit "status/debug_wait") (show_int t.debug_wait) ∷ []))
    else if text_eq topic (lit "set/debug_wait")
    then some (
        reaction (record t { debug_wait = to_int payload })
          (publish (lit "status/debug_wait") (show_int (to_int payload)) ∷ []))
    else if text_eq topic (lit "get/debug_lines")
    then some (reaction t (publish (lit "status/debug_lines") (truth t.debug_lines) ∷ []))
    else if text_eq topic (lit "set/debug_lines")
    then (let on = switches_on payload (lit "lines") in
        some (
          reaction (record t { debug_lines = on })
            (publish (lit "status/debug_lines") (truth on) ∷ [])))
    else if text_eq topic (lit "get/debug_flush")
    then some (reaction t (publish (lit "status/debug_flush") (truth t.debug_flush) ∷ []))
    else if text_eq topic (lit "set/debug_flush")
    then (let on = switches_on payload (lit "flush") in
        some (
          reaction (record t { debug_flush = on })
            (publish (lit "status/debug_flush") (truth on) ∷ [])))
    else none

-- In rescue mode the transport was never set up: `set_up` is its method, which a message makes up for.
unfoldable pub mqtt_receive :
    (Transport → Transport)
    → (Transport → Text → Text → Reaction)
    → ℕ
    → Transport
    → Text
    → Text
    → Reaction
mqtt_receive set_up base_receive now t topic payload =
    let ready = if t.setup_done then t else set_up t in
    let first = if t.setup_done then [] else setup ∷ [] in
    let r : Reaction = elim (receive_own now ready topic payload) [
      | some own ↦ own
      | none ↦ base_receive ready topic payload
    ] in
    record r { effects = first ++ r.effects }
