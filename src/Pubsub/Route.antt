-- ===== src/Pubsub/Route.antt =====
-- The routing of an incoming message to the leaves: `_mqtt_route` of abstract_pubsub.h. The virtual
-- methods of the leaves are parameters; `S` is the state of all leaves together.
pub mod Offers
pub mod Reaches
use stacx.Prelude.{
  ℕ, suc, ◌+◌, ◌==◌, Bool, true, false, not, ◌||◌, ◌&&◌, Option, none, some, [], ◌∷◌, ◌++◌, List,
  if◌then◌else◌,
}
use stacx.Prelude.Text.{Text, lit, text_eq}
use stacx.Pubsub.Address.{Address, Plain, parse_device_topic, parse_plain_topic}

-- The program's state, with the global `::pubsub_service`.
pub record World (S : Type 0) : Type 0 where
  pub pubsub_service : Bool
  pub leaves_state : S

pub record Routable (S : Type 0) : Type 0 where
  pub can_run : World S → Bool
  pub wants_topic : World S → Text → Text → Text → Bool
  pub mqtt_receive : World S → Text → Text → Text → Text → World S × Bool
  pub wants_raw_topic : World S → Text → Bool
  pub mqtt_receive_raw : World S → Text → Text → World S × Bool

-- What the routing reads of the pubsub leaf: its place in the table, its own `mqtt_receive`, the
-- addressing in use and the device.
pub record Router (S : Type 0) : Type 0 where
  pub leaves : List (Routable S)
  pub self : ℕ
  pub receive_backplane : World S → Text → Text → Text → Text → World S × Bool
  pub is_primary_comms : World S → Bool
  pub root_topic : Text
  pub device_id : Text
  pub use_device_topic : Bool
  pub plain : Plain

module _ {S : Type 0} where
  -- The loop over the table; `i` is the place of the first leaf of the list.
  unfoldable pub offer :
      ℕ → Address → Text → ℕ → List (Routable S) → World S → Bool → World S × Bool
  offer self a payload i [] w handled = (w, handled)
  offer self a payload i (leaf ∷ leaves) w handled =
      elim (not (leaf.can_run w)
        || (i == self && handled)
        || not (leaf.wants_topic w a.device_type a.device_name a.device_topic)) [
          | true ↦ offer self a payload (suc i) leaves w handled
          | false ↦
              let (next, h) =
                leaf.mqtt_receive w a.device_type a.device_name a.device_topic payload in
              offer self a payload (suc i) leaves next (h || handled)
        ]

  -- The raw topic, when nobody handled the message.
  unfoldable pub offer_raw :
      (World S → Bool) → Text → Text → List (Routable S) → World S → Bool → World S × Bool
  offer_raw primary topic payload [] w handled = (w, handled)
  offer_raw primary topic payload (leaf ∷ leaves) w handled =
      elim (leaf.can_run w && leaf.wants_raw_topic w topic) [
        | false ↦ offer_raw primary topic payload leaves w handled
        | true ↦
            let service_was = w.pubsub_service in
            let before : World S = if primary w then w else record w { pubsub_service = true } in
            let (after, h) = leaf.mqtt_receive_raw before topic payload in
            let restored : World S =
              if primary after then after else record after { pubsub_service = service_was } in
            offer_raw primary topic payload leaves restored (handled || h)
      ]

  -- The address of a topic; `is_shell` is the flag PUBSUB_SHELL.
  unfoldable pub address_of : Router S → Text → Bool → Option Address
  address_of r topic is_shell =
      if r.use_device_topic && not is_shell
      then parse_device_topic r.root_topic topic
      else some (parse_plain_topic r.plain topic)

  -- Is the message for the backplane of this device?
  unfoldable pub is_backplane : Router S → Address → Bool
  is_backplane r a =
      (text_eq a.device_type (lit "*") || text_eq a.device_type (lit "backplane"))
      && (text_eq a.device_target (lit "*") || text_eq a.device_target r.device_id)

  unfoldable pub route_address : Router S → Address → Text → World S → World S × Bool
  unfolding offer is_backplane
  route_address r a payload w = elim (is_backplane r a) [
    | false ↦ offer r.self a payload 0 r.leaves w false
    | true ↦
        let (next, handled) =
          r.receive_backplane w a.device_type a.device_target a.device_topic payload in
        offer r.self a payload 0 r.leaves next handled
  ]

  -- The state afterwards, and whether somebody handled the message.
  unfoldable pub mqtt_route : Router S → Text → Text → Bool → World S → World S × Bool
  unfolding offer_raw address_of route_address
  mqtt_route r topic payload is_shell w =
      let routed : World S × Bool = elim (address_of r topic is_shell) [
        | none ↦ (w, false)
        | some a ↦ route_address r a payload w
      ] in
      let (next, handled) = routed in
      elim handled [
        | true ↦ (next, true)
        | false ↦ offer_raw r.is_primary_comms topic payload r.leaves next false
      ]
