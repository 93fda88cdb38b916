-- ===== src/Pubsub/Tests.antt =====
-- Messages to a kitchen with a lamp (abstract_pubsub.h).
use stacx.Prelude.{ℕ, suc, ◌≡◌, ◌≤◌, refl, true, false, some, [], ◌∷◌, ◌++◌, arith}
use stacx.Prelude.Text.{lit}
use stacx.Leaf.Receive.Tests.{lamp_leaf}
use stacx.Leaf.Topic.{Device, base_topic_of}
use stacx.Pubsub.Address.{Address, Plain, parse_device_topic, parse_plain_topic, plain_topic}
use stacx.Pubsub.Address.Roundtrip.{parse_device_topic-base_topic}
use stacx.Pubsub.Route.{World, Routable, Router, address_of, mqtt_route}
use stacx.Pubsub.Route.Offers.{Answers, AllKeep, Keeps}
use stacx.Pubsub.Route.Reaches.{KeptByRaw, mqtt_route-reaches}

abbrev kitchen : Device
kitchen = record { root_topic = []; device_id = lit "kitchen" }

parse_device_topic-base_topic_example :
    parse_device_topic [] (base_topic_of kitchen (some true) lamp_leaf ++ lit "set/lamp_level")
    ≡ some (record {
      device_type = lit "light";
      device_name = lit "lamp";
      device_target = lit "kitchen";
      device_topic = lit "set/lamp_level";
    })
parse_device_topic-base_topic_example =
    parse_device_topic-base_topic kitchen lamp_leaf (lit "set/lamp_level") refl refl refl refl refl

-- Two leaves that count the messages they get, after the pubsub leaf.
abbrev counter : Routable ℕ
counter = record {
  can_run = λ w. true;
  wants_topic = λ w type name topic. true;
  mqtt_receive =
      λ w type name topic payload. (record w { leaves_state = suc w.leaves_state }, true);
  wants_raw_topic = λ w topic. false;
  mqtt_receive_raw = λ w topic payload. (w, false);
}

abbrev plain : Plain
plain = record { base_topic = lit "kitchen/"; has_priority = false; use_flat_topic = false }

abbrev router : Router ℕ
router = record {
  leaves = counter ∷ counter ∷ counter ∷ [];
  self = 0;
  receive_backplane = λ w type name topic payload. (w, true);
  is_primary_comms = λ w. true;
  root_topic = [];
  device_id = lit "kitchen";
  use_device_topic = false;
  plain = plain;
}

abbrev idle : World ℕ
idle = record { pubsub_service = false; leaves_state = 0 }

abbrev blink : Address
blink = record {
  device_type = lit "*";
  device_name = lit "*";
  device_target = lit "*";
  device_topic = lit "cmd/blink";
}

blink_addressed : address_of router (lit "kitchen/cmd/blink") false ≡ some blink
unfolding address_of parse_plain_topic plain_topic
blink_addressed = refl

-- Somebody has counted a message.
abbrev Counted : World ℕ → Type 0
Counted w = 1 ≤ w.leaves_state

counter-Keeps : Keeps Counted blink [] counter
counter-Keeps = record { receives = λ w q runs wants. omega arith }

counter-Answers : Answers Counted blink [] counter
counter-Answers = record { runs = λ w. refl; wants = λ w. refl; brings = λ w. omega arith }

counters_AllKeep : AllKeep Counted blink [] router.leaves
counters_AllKeep = (counter-Keeps, (counter-Keeps, (counter-Keeps, tt)))

raw_kept : KeptByRaw Counted (lit "kitchen/cmd/blink") [] router.leaves
raw_kept = record {
  any_flag = λ w flag q. q;
  receives_raw = (λ w q. q, (λ w q. q, (λ w q. q, tt)));
}

mqtt_route-reaches_example : Counted (mqtt_route router (lit "kitchen/cmd/blink") [] false idle).0
mqtt_route-reaches_example =
    mqtt_route-reaches Counted router (lit "kitchen/cmd/blink") [] false idle blink 2 counter
      blink_addressed refl refl counter-Answers counters_AllKeep raw_kept
