-- ===== src/Leaf/Publish.antt =====
-- What a leaf sends to the broker and what it subscribes to there: `mqtt_publish` and
-- `mqtt_subscribe` of leaf.h.
pub mod Local
pub mod Flat
pub mod Tests
use stacx.Prelude.{
  ℕ, ◌-◌, Bool, true, false, not, ◌||◌, ◌&&◌, Option, none, some, is_some, [], ◌∷◌, ◌++◌, List,
  if◌then◌else◌, length,
}
use stacx.Prelude.Text.{
  Text, lit, text_eq, starts_with, index_of, substring, replace_char, not_empty,
}
use stacx.Platform.{Platform}
use stacx.Leaf.State.{Leaf}

-- The globals that select what is published, and the transports of the leaf.
pub record Channel : Type 0 where
  pub has_pubsub : Bool
  pub has_service_leaf : Bool
  pub pubsub_loopback : Bool
  pub pubsub_service : Bool
  pub use_status : Bool
  pub use_event : Bool
  pub use_get : Bool
  pub use_set : Bool
  pub use_cmd : Bool
  pub use_flat_topic : Bool
  pub use_wildcard_topic : Bool

-- A call of the transport, in the order of the calls: sendLoopback, `_mqtt_publish` of the pubsub leaf
-- and of the service leaf, and the line on the serial port.
pub data Sent : Type 0 where
  loopback serial : Text → Text → Sent
  broker service : Text → Text → ℕ → Bool → Sent

-- What is sent, and the message that is published to the taps.
pub record Published : Type 0 where
  pub sent : List Sent
  pub local : Option (Text × Text)

-- Leaf::publish, unless the topic begins with "help"
abbrev pub to_taps : Text → Text → Option (Text × Text)
to_taps topic payload = if starts_with topic (lit "help") then none else some (topic, payload)

module _ {P : Platform} where
  abbrev pub has_priority : Leaf P → Bool
  has_priority l = not_empty l.leaf_priority

  -- The topic with the priority before it.
  unfoldable pub prioritise : Leaf P → Text → Text
  prioritise l topic =
      if has_priority l && not_empty topic
      then (if starts_with topic (lit "status/")
          then (if text_eq l.leaf_priority (lit "normal")
              then lit "admin/" ++ topic
              else l.leaf_priority ++ lit "/" ++ topic)
          else if starts_with topic (lit "change/")
          then lit "alert/" ++ topic
          else l.leaf_priority ++ lit "/" ++ topic)
      else topic

  unfoldable pub full_topic : Leaf P → Text → Text
  full_topic l topic =
      if not_empty topic
      then l.base_topic ++ topic
      else substring l.base_topic 0 (length l.base_topic - 1)

  abbrev pub flat_topic : Leaf P → Text → Text
  flat_topic l topic = l.base_topic ++ replace_char topic b'/' b'-'

  -- The publication to the server, with the topic as it is afterwards.
  unfoldable pub send_full : Channel → Leaf P → Text → Text → ℕ → Bool → Published
  unfolding prioritise full_topic
  send_full c l topic payload qos retain =
      let prioritised = prioritise l topic in
      let full = full_topic l prioritised in
      record {
        sent =
            broker full payload qos retain
            ∷ (if c.pubsub_service && c.has_service_leaf
                then service full payload qos retain ∷ []
                else []);
        local = to_taps prioritised payload;
      }

  unfoldable pub mqtt_publish : Channel → Leaf P → Text → Text → ℕ → Bool → Published
  unfolding send_full
  mqtt_publish c l topic payload qos retain =
      let is_muted = l.leaf_mute && not (starts_with topic (lit "help/")) in
      let only : List Sent → Published =
        λ sent. record { sent = sent; local = to_taps topic payload } in
      if c.has_pubsub
      then (if c.pubsub_loopback
          then only (loopback topic payload ∷ [])
          else if is_muted
          then only []
          else if starts_with topic (lit "status/") && not c.use_status
          then only []
          else if starts_with topic (lit "event/") && not c.use_event
          then only []
          else if c.use_flat_topic
          then only (broker (flat_topic l topic) payload qos retain ∷ [])
          else send_full c l topic payload qos retain)
      else only (if c.pubsub_loopback then serial topic payload ∷ [] else [])

  -- The topic that the pubsub leaf subscribes to, if it does.
  unfoldable pub mqtt_subscribe : Channel → Leaf P → Text → Option Text
  mqtt_subscribe c l topic =
      if not c.has_pubsub
        || (starts_with topic (lit "cmd/") && not c.use_cmd)
        || (starts_with topic (lit "get/") && not c.use_get)
        || (starts_with topic (lit "set/") && not c.use_set)
        || (c.use_wildcard_topic
            && (not (is_some (index_of topic b'#')) && not (is_some (index_of topic b'+'))))
      then none
      else some (if c.use_flat_topic then flat_topic l topic else l.base_topic ++ topic)
