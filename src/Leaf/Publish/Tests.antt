-- ===== src/Leaf/Publish/Tests.antt =====
-- Publications of the sample lamp (`mqtt_publish` of leaf.h).
use stacx.Prelude.{◌≡◌, refl, true, false, some}
use stacx.Prelude.Text.{lit, starts_with}
use stacx.Platform.Example.{board}
use stacx.Leaf.State.{Leaf}
use stacx.Leaf.Receive.Tests.{lamp_leaf}
use stacx.Pubsub.Address.{Plain, plain_topic}
use stacx.Leaf.Publish.{Channel, flat_topic, mqtt_publish, prioritise}
use stacx.Leaf.Publish.Local.{mqtt_publish-local}
use stacx.Leaf.Publish.Flat.{plain_topic-flat_topic}

abbrev channel : Channel
channel = record {
  has_pubsub = true;
  has_service_leaf = false;
  pubsub_loopback = false;
  pubsub_service = false;
  use_status = true;
  use_event = true;
  use_get = true;
  use_set = true;
  use_cmd = true;
  use_flat_topic = false;
  use_wildcard_topic = false;
}

mqtt_publish-local_example :
    (mqtt_publish channel lamp_leaf (lit "status/lamp") (lit "on") 0 false).local
    ≡ some (lit "status/lamp", lit "on")
mqtt_publish-local_example =
    mqtt_publish-local channel lamp_leaf (lit "status/lamp") (lit "on") 0 false refl

abbrev flat : Plain
flat = record {
  base_topic = lit "devices/kitchen/light/lamp/";
  has_priority = false;
  use_flat_topic = true;
}

plain_topic-flat_topic_example :
    plain_topic flat (flat_topic lamp_leaf (lit "set/lamp_level")) ≡ lit "set/lamp_level"
plain_topic-flat_topic_example =
    plain_topic-flat_topic lamp_leaf (lit "set/lamp_level") flat refl refl refl refl

abbrev urgent_lamp : Leaf board
urgent_lamp = record lamp_leaf { leaf_priority = lit "admin" }

prioritised : starts_with (prioritise urgent_lamp (lit "help/cmd/blink")) (lit "help") ≡ false
unfolding prioritise
prioritised = refl
