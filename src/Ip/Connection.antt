-- ===== src/Ip/Connection.antt =====
-- The connection of the network transport (abstract_ip.h: `ipConnect`, `ipDisconnect`, `ipOnConnect`,
-- `ipOnDisconnect`, `ipScheduleReconnect`, `isPrimaryComms`, `loop`). The result of an operation is
-- the new state and what the code did meanwhile, in order. Times are millis(), a 32-bit counter; the
-- log lines are left out.
pub mod Announcing
pub mod Reconnecting
use stacx.Prelude.{
  ℕ, suc, ◌+◌, ◌/◌, ◌%◌, ◌^◌, ◌==◌, Bool, true, false, not, ◌&&◌, ◌||◌, [], ◌∷◌, ◌++◌, List,
  if◌then◌else◌, ltb, leb,
}
use stacx.Prelude.Text.{Text, lit}
use stacx.Prelude.Int.{ℤ, pos, negsuc, to_ulong}

pub data IpCommsState : Type 0 where
  offline try_ip wait_ip wait_pubsub : IpCommsState

-- ipCommsState(s), and what is published to the other leaves: the connection with its address, the
-- disconnection, the end of the attempts; and the status.
pub data IpEffect : Type 0 where
  comms : IpCommsState → IpEffect
  announce_connect : IpEffect
  announce_disconnect : IpEffect
  announce_abort : IpEffect
  report_status : IpEffect

-- `has_ticker` is HAS_TICKER. The last three are what `isPrimaryComms` asks: a service leaf, whether
-- there is a leaf for the network, and whether it is this one.
pub record IpSettings : Type 0 where
  pub has_ticker : Bool
  pub ip_autoconnect : Bool
  pub ip_reconnect : Bool
  pub ip_reconnect_interval_sec : ℤ
  pub ip_connect_attempt_max : ℤ
  pub ip_delay_connect : ℤ
  pub ip_report_interval_sec : ℕ
  pub ip_do_notify : Bool
  pub is_service : Bool
  pub has_ip_leaf : Bool
  pub is_ip_leaf : Bool

-- `timer_active` says that `ipReconnectTimer` is armed.
pub record Ip : Type 0 where
  pub ip_connected : Bool
  pub ip_connect_notified : Bool
  pub ip_reconnect_due : Bool
  pub timer_active : Bool
  pub ip_connect_count : ℕ
  pub ip_connect_attempt_count : ℕ
  pub ip_connect_time : ℕ
  pub ip_disconnect_time : ℕ
  pub ip_report_last_sec : ℕ

abbrev pub IpStep : Type 0
IpStep = Ip × List IpEffect

-- What follows an operation.
abbrev pub then_do : IpStep → (Ip → IpStep) → IpStep
then_do step f = let (s, more) = f step.0 in (s, step.1 ++ more)

unfoldable pub is_primary_comms : IpSettings → Bool
is_primary_comms c = if c.is_service then false else (if c.has_ip_leaf then c.is_ip_leaf else true)

unfoldable pub ip_set_reconnect_due : Ip → Ip
ip_set_reconnect_due s = record s { ip_reconnect_due = true }

-- ipReconnectTimerCallback, of a timer that runs once
unfoldable pub ip_timer_fires : Ip → Ip
unfolding ip_set_reconnect_due
ip_timer_fires s = ip_set_reconnect_due (record s { timer_active = false })

unfoldable pub ip_connect : Ip → IpStep
ip_connect s =
    (record s { ip_connect_attempt_count = s.ip_connect_attempt_count + 1 }, comms try_ip ∷ [])

-- (max > 0) && (count >= max)
abbrev pub attempts_exceeded : ℤ → ℕ → Bool
attempts_exceeded (pos n) count = ltb 0 n && leb n count
attempts_exceeded (negsuc n) count = false

-- An interval below zero, none, and a wait.
abbrev pub wait_for : IpSettings → Ip → ℤ → IpStep
wait_for c s (negsuc n) = (s, [])
wait_for c s (pos n) =
    if attempts_exceeded c.ip_connect_attempt_max s.ip_connect_attempt_count
    then (s, announce_abort ∷ comms offline ∷ [])
    else if n == 0
    then (ip_set_reconnect_due s, [])
    else if c.has_ticker
    then (record s { timer_active = true }, comms wait_ip ∷ [])
    else (s, comms wait_ip ∷ [])

unfoldable pub ip_schedule_reconnect : IpSettings → Ip → IpStep
unfolding ip_set_reconnect_due
ip_schedule_reconnect c s =
    if c.ip_reconnect then wait_for c s c.ip_reconnect_interval_sec else (s, [])

unfoldable pub ip_disconnect : IpSettings → Bool → Ip → IpStep
unfolding ip_schedule_reconnect
ip_disconnect c retry s = if retry then ip_schedule_reconnect c s else (
  record s { timer_active = if c.has_ticker then false else s.timer_active },
  comms offline ∷ [],
)

unfoldable pub ip_on_connect : ℕ → Ip → IpStep
ip_on_connect now s = (
  record s {
    ip_connected = true;
    ip_connect_time = now;
    ip_connect_count = s.ip_connect_count + 1;
    ip_connect_attempt_count = 0;
  },
  comms wait_pubsub ∷ [],
)

-- What the loss of the primary connection leads to.
unfoldable pub await_network : IpSettings → Ip → IpStep
unfolding ip_schedule_reconnect is_primary_comms
await_network c s =
    if is_primary_comms c
    then (if c.ip_autoconnect
        then then_do (s, comms wait_ip ∷ []) (ip_schedule_reconnect c)
        else (s, comms offline ∷ []))
    else (s, [])

abbrev pub drop_connection : ℕ → Ip → IpStep
drop_connection now s = (record s { ip_connected = false; ip_disconnect_time = now }, [])

unfoldable pub ip_on_disconnect : IpSettings → ℕ → Ip → IpStep
unfolding await_network
ip_on_disconnect c now s = then_do (await_network c s) (drop_connection now)

-- The attempt that is due; the delay is compared as an unsigned number. `client_connect` is the
-- virtual `ipConnect("reconnect")`.
unfoldable pub ip_retry : IpSettings → (Ip → IpStep) → ℕ → Ip → IpStep
ip_retry c client_connect now s =
    if s.ip_reconnect_due && leb (to_ulong c.ip_delay_connect) (now / 1000)
    then (let due : Ip = record s { ip_reconnect_due = false } in
        if s.ip_connected then (due, []) else client_connect due)
    else (s, [])

-- A change of the connection is announced once.
unfoldable pub ip_notify : IpSettings → Ip → IpStep
ip_notify c s =
    let told : Ip = record s { ip_connect_notified = s.ip_connected } in
    if c.ip_do_notify
    then (if s.ip_connected
        then (if s.ip_connect_notified then (s, []) else (told, announce_connect ∷ []))
        else (if s.ip_connect_notified then (told, announce_disconnect ∷ []) else (s, [])))
    else (s, [])

unfoldable pub ip_report : IpSettings → ℕ → Ip → IpStep
ip_report c now s =
    let due = (s.ip_report_last_sec + c.ip_report_interval_sec) % 2 ^ 32 in
    if ltb 0 c.ip_report_interval_sec && leb due (now / 1000)
    then (record s { ip_report_last_sec = now / 1000 }, report_status ∷ [])
    else (s, [])

unfoldable pub ip_loop : IpSettings → (Ip → IpStep) → ℕ → Ip → IpStep
unfolding ip_retry ip_notify ip_report
ip_loop c client_connect now s =
    then_do (then_do (ip_retry c client_connect now s) (ip_notify c)) (ip_report c now)
