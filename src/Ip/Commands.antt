-- ===== src/Ip/Commands.antt =====
-- The commands of the network transport (abstract_ip.h: `commandHandler`). `none` stands for the
-- commands that go on to the class Leaf.
use stacx.Prelude.{◌&&◌, Bool, false, Option, none, some, [], ◌∷◌, if◌then◌else◌}
use stacx.Prelude.Text.{Text, lit, text_eq}
use stacx.Ip.Connection.{Ip, IpSettings, IpStep, ip_connect, ip_disconnect, report_status}

-- What a command does: a step of the connection, the status of the clients, or the time in a format.
pub data IpAction : Type 0 where
  connection_step : IpStep → IpAction
  publish_clients : IpAction
  publish_time : Text → IpAction

-- `has_clients` is USE_IP_TCPCLIENT.
unfoldable pub ip_command : IpSettings → Bool → Text → Text → Ip → Option IpAction
unfolding ip_connect ip_disconnect
ip_command c has_clients topic payload s =
    if text_eq topic (lit "ip_connect")
    then some (connection_step (ip_connect s))
    else if text_eq topic (lit "ip_disconnect")
    then some (connection_step (ip_disconnect c false s))
    else if text_eq topic (lit "ip_status")
    then some (connection_step (s, report_status ∷ []))
    else if has_clients && text_eq topic (lit "ip_client_status")
    then some publish_clients
    else if text_eq topic (lit "ip_time")
    then some (publish_time payload)
    else none
