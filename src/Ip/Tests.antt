-- ===== src/Ip/Tests.antt =====
-- Examples of the network transport.
use stacx.Prelude.{◌≡◌, ◌≤◌, ◌+◌, refl, true, false, some, [], ◌∷◌, ◌++◌, List, arith}
use stacx.Prelude.Text.{lit}
use stacx.Prelude.Number.{show_nat}
use stacx.Prelude.Int.{pos, negsuc}
use stacx.Ip.Connection.{IpSettings, Ip, is_primary_comms}
use stacx.Ip.Connection.Announcing.{Event, link_up, link_down, round, ticker, run, hear, run-hear}
use stacx.Ip.Connection.Reconnecting.{by_itself, run-committed, Retries, run-Retries}
use stacx.Ip.Status.{time_source_name, minutes_since}

abbrev settings : IpSettings
settings = record {
  has_ticker = true;
  ip_autoconnect = true;
  ip_reconnect = true;
  ip_reconnect_interval_sec = pos 20;
  ip_connect_attempt_max = pos 2;
  ip_delay_connect = pos 0;
  ip_report_interval_sec = 0;
  ip_do_notify = true;
  is_service = false;
  has_ip_leaf = true;
  is_ip_leaf = true;
}

abbrev fresh : Ip
fresh = record {
  ip_connected = false;
  ip_connect_notified = false;
  ip_reconnect_due = false;
  timer_active = false;
  ip_connect_count = 0;
  ip_connect_attempt_count = 0;
  ip_connect_time = 0;
  ip_disconnect_time = 0;
  ip_report_last_sec = 0;
}

-- Losses that overlap make one attempt more than the limit.
abbrev flapping : List Event
flapping =
    link_down 1000
    ∷ ticker
    ∷ round 2000
    ∷ link_down 3000
    ∷ ticker
    ∷ link_down 4000
    ∷ round 5000
    ∷ ticker
    ∷ round 6000
    ∷ []

one_too_many : (run settings fresh flapping).0.ip_connect_attempt_count ≡ 3
unfolding run
one_too_many = refl

abbrev up_and_down : List Event
up_and_down = link_up 1000 ∷ round 2000 ∷ round 3000 ∷ link_down 4000 ∷ []

run-hear_example :
    hear false (run settings fresh (up_and_down ++ round 5000 ∷ [])).1
    ≡ some (run settings fresh (up_and_down ++ round 5000 ∷ [])).0.ip_connected
run-hear_example = run-hear settings fresh up_and_down 5000 refl

run-committed_example : (run settings fresh flapping).0.ip_connect_attempt_count ≤ 2 + 1
unfolding by_itself
run-committed_example =
    run-committed settings 2 refl fresh flapping (omega arith) refl (omega arith)

retries : Retries settings fresh
unfolding is_primary_comms
retries = record {
  primary = refl;
  autoconnects = refl;
  reconnects = refl;
  interval = 20;
  waits = refl;
  can_wait = refl;
  not_exceeded = refl;
}

run-Retries_example :
    (run settings fresh (link_down 1000 ∷ ticker ∷ round 30000 ∷ [])).0.ip_connect_attempt_count ≡ 1
run-Retries_example = run-Retries settings fresh 1000 30000 retries refl

time_sources : time_source_name (pos 4) ≡ lit "NTP"
unfolding time_source_name
time_sources = refl

unknown_source : time_source_name (negsuc 0) ≡ lit "UNK"
unfolding time_source_name
unknown_source = refl

one_minute : minutes_since 65000 0 ≡ lit "1:05"
unfolding minutes_since show_nat
one_minute = refl
