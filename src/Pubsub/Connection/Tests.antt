-- ===== src/Pubsub/Connection/Tests.antt =====
-- A transport whose connection is lost (abstract_pubsub.h).
use stacx.Prelude.{◌≡◌, refl, true, false, none, []}
use stacx.Prelude.Text.{lit}
use stacx.Pubsub.Connection.{
  Settings, Connection, Step, loop, check_heartbeat, retry, notify, on_disconnect,
  schedule_reconnect, connect,
}
use stacx.Pubsub.Connection.Subscriptions.{Topics, Reports}
use stacx.Pubsub.Connection.Hearing.{hear, Informs}
use stacx.Pubsub.Connection.Informing.{loop-hear}
use stacx.Pubsub.Connection.Recovering.{is_pending, time_passes}
use stacx.Pubsub.Connection.Lifecycle.{lost_is_retried}

abbrev topics : Topics
topics = record {
  use_wildcard_topic = true;
  use_device_topic = true;
  priority = none;
  has_ota = true;
  subscribe_allcall = false;
  subscribe_mac = false;
  root_topic = [];
  mac_short = lit "a1b2c3";
}

abbrev reports : Reports
reports = record {
  has_ip = true;
  onconnect_wake = true;
  onconnect_uptime = true;
  onconnect_signal = true;
  onconnect_ip = true;
  onconnect_mac = true;
  wake_reason = none;
  signal = lit "-61";
  ip_address = lit "10.0.0.7";
  transport = lit "wifi";
  mac = lit "a1b2c3d4e5f6";
}

abbrev settings : Settings
settings = record {
  has_ticker = true;
  autoconnect = true;
  connect_attempt_limit = 10;
  reconnect_interval_sec = 60;
  broker_heartbeat_topic = [];
  broker_keepalive_sec = 660;
  report_interval_sec = 0;
  host = lit "mqtt.lan";
  topics = topics;
  reports = reports;
}

abbrev lost : Connection
lost = record {
  connected = false;
  connecting = false;
  connect_notified = true;
  reconnect_due = false;
  timer_active = false;
  connect_count = 1;
  connect_attempt_count = 0;
  connect_time = 5000;
  disconnect_time = 0;
  last_broker_heartbeat = 0;
  report_last_sec = 0;
  rebooting = false;
}

abbrev no_client : Connection → Step
no_client s = (s, [])

no_client-Informs : (d : Connection) → Informs d (no_client d)
unfolding Informs hear
no_client-Informs d running = refl

lost_is_retried_example :
    let told = (loop settings no_client true 9000 lost).0 in
    (is_pending told ≡ true)
    × (told.rebooting ≡ false)
    × ((loop settings no_client true 69000 (time_passes told)).0.connecting ≡ true)
lost_is_retried_example =
    lost_is_retried settings no_client true 9000 69000 lost
      (record { autoconnects = refl; can_wait = refl })
      (record { told = refl; down = refl; running = refl }) refl

-- At the limit of attempts the device reboots, and nothing follows.
abbrev exhausted : Connection
exhausted = record lost { connect_attempt_count = 5 }

reboots :
    ((loop
        (record settings { connect_attempt_limit = 5 })
        no_client
        true
        9000
        exhausted).0.rebooting
      ≡ true)
    × ((loop
          (record settings { connect_attempt_limit = 5 })
          no_client
          true
          9000
          exhausted).0.timer_active
        ≡ false)
unfolding loop check_heartbeat retry notify on_disconnect schedule_reconnect connect
reboots = (refl, refl)

loop-hear_example : hear true (loop settings no_client true 9000 lost).1 ≡ false
unfolding loop check_heartbeat retry notify on_disconnect schedule_reconnect connect
loop-hear_example = loop-hear settings no_client true 9000 lost no_client-Informs refl
