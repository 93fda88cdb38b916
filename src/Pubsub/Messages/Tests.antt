-- ===== src/Pubsub/Messages/Tests.antt =====
-- Messages to a transport (abstract_pubsub.h).
use stacx.Prelude.{◌≡◌, refl, true, false, some, []}
use stacx.Prelude.Text.{lit}
use stacx.Prelude.Int.{pos}
use stacx.Pubsub.Messages.{Transport, reaction, wants_topic, mqtt_receive}
use stacx.Pubsub.Messages.Ranges.{wants_own_is_handled}

abbrev transport : Transport
transport = record {
  setup_done = true;
  broker_heartbeat_topic = [];
  last_broker_heartbeat = 0;
  has_ip = true;
  lacks_time = false;
  timer_active = false;
  reconnect_due = false;
  device_id = lit "kitchen";
  device_id_max = 20;
  autoconnect = true;
  host = lit "mqtt.lan";
  port = 1883;
  debug_level = pos 1;
  debug_wait = pos 0;
  debug_lines = false;
  debug_flush = false;
  mac = lit "a1b2c3d4e5f6";
  build_number = some (lit "42");
}

mac_wanted : wants_topic (λ u. false) transport (lit "get/mac") ≡ true
unfolding wants_topic
mac_wanted = refl

wants_own_is_handled_example :
    (mqtt_receive
      (λ t. t)
      (λ t topic payload. reaction t [])
      7000
      transport
      (lit "get/mac")
      []).handled
    ≡ true
wants_own_is_handled_example =
    wants_own_is_handled (λ t. t) (λ t topic payload. reaction t []) 7000 transport (lit "get/mac")
      [] mac_wanted refl refl
