-- ===== src/Pubsub/Connection/Subscriptions.antt =====
-- What the transport publishes and subscribes to when it connects (`pubsubOnConnect` of
-- abstract_pubsub.h).
use stacx.Prelude.{
  ℕ, Bool, true, false, ◌&&◌, Option, none, some, [], ◌∷◌, ◌++◌, List, map, if◌then◌else◌,
}
use stacx.Prelude.Text.{Text, lit}

-- The states of a connection that are shown to the user (`ipCommsState`).
pub data CommsState : Type 0 where
  wait_pubsub try_pubsub online : CommsState

-- What the transport does: `announce` is publish, `subscribe_raw` is _mqtt_subscribe.
pub data Effect : Type 0 where
  ip_comms_state : CommsState → Effect
  announce : Text → Text → Effect
  publish : Text → Text → ℕ → Bool → Effect
  subscribe_raw subscribe reboot : Text → Effect
  leaves_subscribe leaves_disconnect resend_queue status : Effect

-- What is reported on the first connection; `wake_reason` is none when it is not set.
pub record Reports : Type 0 where
  pub has_ip : Bool
  pub onconnect_wake : Bool
  pub onconnect_uptime : Bool
  pub onconnect_signal : Bool
  pub onconnect_ip : Bool
  pub onconnect_mac : Bool
  pub wake_reason : Option Text
  pub signal : Text
  pub ip_address : Text
  pub transport : Text
  pub mac : Text

abbrev when : Bool → List Effect → List Effect
when b effects = if b then effects else []

abbrev wake_report : Option Text → List Effect
wake_report none = []
wake_report (some reason) = publish (lit "status/wake") reason 0 true ∷ []

unfoldable pub first_reports : Reports → Text → List Effect
first_reports r uptime =
    when r.onconnect_wake (wake_report r.wake_reason)
    ++ when (r.has_ip && r.onconnect_uptime) (publish (lit "status/uptime") uptime 0 false ∷ [])
    ++ when (r.has_ip && r.onconnect_signal) (publish (lit "status/signal") r.signal 0 false ∷ [])
    ++ when (r.has_ip && r.onconnect_ip) (
        publish (lit "status/ip") r.ip_address 0 true
        ∷ publish (lit "status/transport") r.transport 0 true
        ∷ [])
    ++ when r.onconnect_mac (publish (lit "status/mac") r.mac 0 true ∷ [])

-- The settings that choose the subscriptions; `has_ota` is a build with over-the-air updates.
pub record Topics : Type 0 where
  pub use_wildcard_topic : Bool
  pub use_device_topic : Bool
  pub priority : Option Text
  pub has_ota : Bool
  pub subscribe_allcall : Bool
  pub subscribe_mac : Bool
  pub root_topic : Text
  pub mac_short : Text

abbrev wildcards : Topics → List Text
wildcards t = elim t.priority [
  | some priority ↦
      (priority ++ lit "/read-request/#")
      ∷ (priority ++ lit "/write-request/#")
      ∷ lit "admin/cmd/#"
      ∷ lit "admin/get/#"
      ∷ lit "admin/set/#"
      ∷ []
  | none ↦
      (lit "cmd/#" ∷ lit "get/#" ∷ lit "set/#" ∷ [])
      ++ (if t.use_device_topic
          then lit "+/+/cmd/#" ∷ lit "+/+/get/#" ∷ lit "+/+/set/#" ∷ []
          else [])
]

abbrev single_topics : Topics → List Text
single_topics t =
    (lit "cmd/restart" ∷ lit "cmd/setup" ∷ [])
    ++ (if t.has_ota
        then lit "cmd/update"
          ∷ lit "cmd/rollback"
          ∷ lit "cmd/bootpartition"
          ∷ lit "cmd/nextpartition"
          ∷ lit "cmd/otherpartition"
          ∷ []
        else [])
    ++ (lit "cmd/leaves"
        ∷ lit "cmd/status"
        ∷ lit "cmd/subscriptions"
        ∷ lit "set/name"
        ∷ lit "set/debug"
        ∷ lit "set/debug_wait"
        ∷ lit "set/debug_lines"
        ∷ lit "set/debug_flush"
        ∷ [])

unfoldable pub subscriptions : Topics → List Effect
subscriptions t =
    map subscribe (if t.use_wildcard_topic then wildcards t else single_topics t)
    ++ when t.subscribe_allcall (subscribe_raw (t.root_topic ++ lit "*/#") ∷ [])
    ++ when t.subscribe_mac (subscribe_raw (t.root_topic ++ t.mac_short ++ lit "/#") ∷ [])
    ++ (leaves_subscribe ∷ [])
