-- ===== src/Leaf/Publish/Local.antt =====
-- What the taps of a leaf see of its publications (`mqtt_publish` of leaf.h).
use stacx.Prelude.{ℕ, ◌≡◌, Bool, true, false, none, some, [], if◌then◌else◌, arith}
use stacx.Prelude.Text.{Text, lit, starts_with}
use stacx.Platform.{Platform}
use stacx.Leaf.State.{Leaf}
use stacx.Leaf.Publish.{Channel, has_priority, prioritise, to_taps, send_full, mqtt_publish}

module _ {P : Platform} (c : Channel) (l : Leaf P) (topic payload : Text) (qos : ℕ)
    (retain : Bool) where
  plain-send_full :
      has_priority l ≡ false
      → (send_full c l topic payload qos retain).local ≡ to_taps topic payload
  unfolding send_full prioritise
  plain-send_full plain = simp (send_full, prioritise, plain)

  -- A leaf without a priority publishes to its taps every message whose topic does not begin with
  -- "help", and only those, as it is: whether it is muted, loops back, has a broker or may publish its
  -- status there makes no difference.
  pub mqtt_publish-local :
      has_priority l ≡ false
      → (mqtt_publish c l topic payload qos retain).local
        ≡ (if starts_with topic (lit "help") then none else some (topic, payload))
  unfolding mqtt_publish
  mqtt_publish-local plain = ground (arith, plain-send_full plain)

  -- A muted leaf with a broker sends it nothing, unless a topic begins with "help/" or loopback is on.
  mqtt_publish-muted :
      l.leaf_mute ≡ true
      → starts_with topic (lit "help/") ≡ false
      → c.pubsub_loopback ≡ false
      → (mqtt_publish c l topic payload qos retain).sent ≡ []
  unfolding mqtt_publish
  mqtt_publish-muted muted no_help no_loopback = ground arith
