-- ===== src/Pubsub/Connection.antt =====
-- The connection of the pubsub transport to its broker (abstract_pubsub.h: `pubsubConnect`,
-- `pubsubOnConnect`, `pubsubOnDisconnect`, `pubsubScheduleReconnect`, `loop`). The result of an
-- operation is the new state and what the code did meanwhile, in order. Times are millis(), a 32-bit
-- counter; a negative limit or interval, which acts as 0 does, is not represented.
pub mod Subscriptions
pub mod Recovering
pub mod Lifecycle
pub mod Hearing
pub mod Informing
pub mod Tests
use Subscriptions.{
  Topics, Effect, CommsState, try_pubsub, online, wait_pubsub, ip_comms_state, announce, publish,
  subscribe_raw, leaves_disconnect, reboot, resend_queue, status, subscriptions, first_reports,
  Reports,
}
use stacx.Prelude.{
  ℕ, ◌+◌, ◌-◌, ◌*◌, ◌/◌, ◌%◌, ◌^◌, ◌==◌, Bool, true, false, not, ◌||◌, ◌&&◌, Option, none, some, [],
  ◌∷◌, ◌++◌, List, if◌then◌else◌, ltb, leb,
}
use stacx.Prelude.Text.{Text, lit, not_empty}
use stacx.Prelude.Number.{show_nat}

pub record Settings : Type 0 where
  pub has_ticker : Bool
  pub autoconnect : Bool
  pub connect_attempt_limit : ℕ
  pub reconnect_interval_sec : ℕ
  pub broker_heartbeat_topic : Text
  pub broker_keepalive_sec : ℕ
  pub report_interval_sec : ℕ
  pub host : Text
  pub topics : Topics
  pub reports : Reports

-- The fields of the transport; `timer_active` is `pubsub_reconnect_timer.active()`. While `rebooting`, after
-- Leaf::reboot, which does not return, no code runs.
pub record Connection : Type 0 where
  pub connected : Bool
  pub connecting : Bool
  pub connect_notified : Bool
  pub reconnect_due : Bool
  pub timer_active : Bool
  pub connect_count : ℕ
  pub connect_attempt_count : ℕ
  pub connect_time : ℕ
  pub disconnect_time : ℕ
  pub last_broker_heartbeat : ℕ
  pub report_last_sec : ℕ
  pub rebooting : Bool

abbrev pub Step : Type 0
Step = Connection × List Effect

-- What follows an operation, unless it reboots.
abbrev pub next_do : Step → (Connection → Step) → Step
next_do step f =
    let next : Step = (let (s, more) = f step.0 in (s, step.1 ++ more)) in
    if step.0.rebooting then step else next

unfoldable pub set_reconnect_due : Connection → Connection
set_reconnect_due s = record s { reconnect_due = true }

-- The callback of the one-shot timer.
unfoldable pub timer_fires : Connection → Connection
unfolding set_reconnect_due
timer_fires s = set_reconnect_due (record s { timer_active = false })

-- The connection is tried once the network is up.
unfoldable pub connect : Bool → Connection → Step × Bool
connect ip_connected s = if not ip_connected then ((s, []), false) else (
  (
    record s { connecting = true; connect_attempt_count = s.connect_attempt_count + 1 },
    ip_comms_state try_pubsub ∷ [],
  ),
  true,
)

abbrev pub limit_reached : Settings → ℕ → Bool
limit_reached c attempts = ltb 0 c.connect_attempt_limit && leb c.connect_attempt_limit attempts

unfoldable pub schedule_reconnect : Settings → Connection → Step
unfolding set_reconnect_due
schedule_reconnect c s =
    let scheduled : Connection =
      if c.reconnect_interval_sec == 0
      then set_reconnect_due s
      else if c.has_ticker
      then record s { timer_active = true }
      else s in
    if limit_reached c s.connect_attempt_count
    then (record s { rebooting = true }, reboot (lit "pubsub_retry_watchdog") ∷ [])
    else (scheduled, [])

unfoldable pub on_disconnect : Settings → Bool → ℕ → Connection → Step
unfolding schedule_reconnect
on_disconnect c ip_connected now s =
    let waits = if ip_connected then ip_comms_state wait_pubsub ∷ [] else [] in
    let dropped : Connection = record s {
      connecting = false;
      connected = false;
      disconnect_time = now;
    } in
    next_do
      (dropped, waits ++ announce (lit "_pubsub_disconnect") (lit "1") ∷ leaves_disconnect ∷ [])
      (λ d. if c.autoconnect then schedule_reconnect c d else (d, []))

unfoldable pub on_connect : Settings → Bool → ℕ → Connection → Step
unfolding first_reports subscriptions
on_connect c do_subscribe now s =
    let first = s.connect_count + 1 == 1 in
    let heartbeat = do_subscribe && not_empty c.broker_heartbeat_topic in
    (
      record s {
        timer_active = if c.has_ticker then false else s.timer_active;
        connected = true;
        connecting = false;
        connect_count = s.connect_count + 1;
        connect_time = now;
        connect_attempt_count = 0;
        last_broker_heartbeat = if heartbeat then now else s.last_broker_heartbeat;
      },
      (ip_comms_state online
            ∷ announce (lit "_pubsub_connect") (lit "1")
            ∷ publish (lit "status/presence") (lit "online") 0 true
            ∷ [])
          ++ (if first then first_reports c.reports (show_nat (now / 1000)) else [])
          ++ (if heartbeat then subscribe_raw c.broker_heartbeat_topic ∷ [] else [])
          ++ (if do_subscribe then subscriptions c.topics else [])
          ++ (resend_queue ∷ announce (lit "_pubsub_connect") c.host ∷ []),
    )

-- (millis() - last_broker_heartbeat) / 1000 on 32 bits
abbrev pub seconds_since : ℕ → ℕ → ℕ
seconds_since now last = (now + 2 ^ 32 - last) % 2 ^ 32 / 1000

abbrev pub broker_is_silent : Settings → ℕ → Connection → Bool
broker_is_silent c now s =
    s.connected
    && not_empty c.broker_heartbeat_topic
    && ltb 0 c.broker_keepalive_sec
    && ltb 0 s.last_broker_heartbeat
    && ltb c.broker_keepalive_sec (seconds_since now s.last_broker_heartbeat)

-- `client_disconnect` is the virtual `pubsubDisconnect(false)`.
unfoldable pub check_heartbeat : Settings → (Connection → Step) → ℕ → Connection → Step
check_heartbeat c client_disconnect now s =
    if broker_is_silent c now s
    then next_do (client_disconnect s) (λ d. (
      d,
      publish (lit "event/broker_keepalive") (show_nat (seconds_since now s.last_broker_heartbeat))
            0 false
          ∷ [],
    ))
    else (s, [])

-- The attempt that is due; the flag is false without an ip leaf, too.
unfoldable pub retry : Settings → Bool → Connection → Step
unfolding connect schedule_reconnect
retry c ip_connected s =
    if ip_connected && s.reconnect_due
    then (let (tried, ok) = connect ip_connected (record s { reconnect_due = false }) in
        if ok
        then tried
        else next_do tried (λ d. if c.autoconnect then schedule_reconnect c d else (d, [])))
    else (s, [])

abbrev pub settle : Step → Step
settle step = next_do step (λ d. (record d { connect_notified = d.connected }, []))

-- A change of the connection is reported once: it came up, or it went down.
abbrev pub on_change : Bool → Bool → Step → Step → Step → Step
on_change told up came went same =
    if not told && up then came else if told && not up then went else same

unfoldable pub notify : Settings → Bool → ℕ → Connection → Step
unfolding on_connect on_disconnect
notify c ip_connected now s =
    on_change s.connect_notified s.connected (settle (on_connect c true now s))
      (settle (on_disconnect c ip_connected now s)) (s, [])

unfoldable pub report : Settings → ℕ → Connection → Step
report c now s =
    if ltb 0 c.report_interval_sec
      && leb ((s.report_last_sec + c.report_interval_sec) % 2 ^ 32) (now / 1000)
    then (record s { report_last_sec = now / 1000 }, status ∷ [])
    else (s, [])

-- One round of the loop, without the send queue.
unfoldable pub loop : Settings → (Connection → Step) → Bool → ℕ → Connection → Step
unfolding check_heartbeat retry notify report
loop c client_disconnect ip_connected now s =
    next_do
      (next_do (next_do (check_heartbeat c client_disconnect now s) (retry c ip_connected))
        (notify c ip_connected now))
      (report c now)
