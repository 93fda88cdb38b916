-- ===== src/Pubsub/Route/Reaches.antt =====
-- The whole of `_mqtt_route` of abstract_pubsub.h: the backplane, the leaves and the raw topics.
use stacx.Prelude.{
  ℕ, ◌==◌, ◌≡◌, Bool, true, false, ◌||◌, ◌&&◌, some, [], ◌∷◌, List, if◌then◌else◌, get_elem?,
  Bool-cases, arith, inl, inr,
}
use stacx.Prelude.Text.{Text}
use stacx.Pubsub.Address.{Address}
use stacx.Pubsub.Route.{
  World, Routable, Router, offer_raw, address_of, is_backplane, route_address, mqtt_route,
}
use stacx.Pubsub.Route.Offers.{Answers, AllKeep, offer-reaches}

module _ {S : Type 0} where
  abbrev pub AllKeepRaw : (World S → Type 0) → Text → Text → List (Routable S) → Type 0
  AllKeepRaw Q topic payload [] = Unit
  AllKeepRaw Q topic payload (leaf ∷ leaves) =
      ((w : World S) → Q w → Q (leaf.mqtt_receive_raw w topic payload).0)
      × AllKeepRaw Q topic payload leaves

  -- The property does not read the service flag, and the raw handlers keep it.
  pub record KeptByRaw (Q : World S → Type 0) (topic payload : Text) (leaves : List (Routable S))
      : Type 0 where
    pub any_flag : (w : World S) (flag : Bool) → Q w → Q (record w { pubsub_service = flag })
    pub receives_raw : AllKeepRaw Q topic payload leaves

  with_flag :
      (Q : World S → Type 0) (primary : Bool) (w : World S) (flag : Bool)
      → ((v : World S) (b : Bool) → Q v → Q (record v { pubsub_service = b }))
      → Q w
      → Q (if primary then w else record w { pubsub_service = flag })
  with_flag Q true w flag any q = q
  with_flag Q false w flag any q = any w flag q

  offer_raw-keeps :
      (Q : World S → Type 0) (primary : World S → Bool) (topic payload : Text)
      (leaves : List (Routable S)) (w : World S) (handled : Bool)
      → KeptByRaw Q topic payload leaves
      → Q w
      → Q (offer_raw primary topic payload leaves w handled).0
  unfolding offer_raw
  offer_raw-keeps Q primary topic payload [] w handled kept q = q
  offer_raw-keeps Q primary topic payload (leaf ∷ leaves) w handled kept q =
      let rest : KeptByRaw Q topic payload leaves = record {
        any_flag = kept.any_flag;
        receives_raw = kept.receives_raw.1;
      } in
      elim (Bool-cases (leaf.can_run w && leaf.wants_raw_topic w topic)) [
        | inr unwanted ↦
            simp (offer_raw, unwanted)
              (offer_raw-keeps Q primary topic payload leaves w handled rest q)
        | inl wanted ↦
            let before : World S = if primary w then w else record w { pubsub_service = true } in
            let flagged = with_flag Q (primary w) w true kept.any_flag q in
            let received = kept.receives_raw.0 before flagged in
            let result = leaf.mqtt_receive_raw before topic payload in
            let restored =
              with_flag Q (primary result.0) result.0 w.pubsub_service kept.any_flag received in
            simp (offer_raw, wanted)
              (offer_raw-keeps Q primary topic payload leaves _ (handled || result.1) rest restored)
      ]

  route_address-reaches :
      (Q : World S → Type 0) (r : Router S) (payload : Text) (w : World S) (a : Address) (k : ℕ)
      (leaf : Routable S)
      → get_elem? r.leaves k ≡ some leaf
      → (k == r.self) ≡ false
      → Answers Q a payload leaf
      → AllKeep Q a payload r.leaves
      → Q (route_address r a payload w).0
  unfolding route_address
  route_address-reaches Q r payload w a k leaf at other answers keep =
      let backplane = r.receive_backplane w a.device_type a.device_target a.device_topic payload in
      let from = λ (v : World S) (h : Bool).
        offer-reaches Q r.self a payload 0 k r.leaves leaf v h at (ground arith) answers keep in
      elim (Bool-cases (is_backplane r a)) [
        | inl for_backplane ↦ simp (route_address, for_backplane) (from backplane.0 backplane.1)
        | inr for_leaves ↦ simp (route_address, for_leaves) (from w false)
      ]

  -- A message that has an address is received by every leaf of the table, other than the pubsub leaf
  -- itself, that runs and wants it, whoever else handles it: what the handler of the leaf brings about
  -- holds when the routing is done, if the handlers that are called for the message keep it.
  pub mqtt_route-reaches :
      (Q : World S → Type 0) (r : Router S) (topic payload : Text) (is_shell : Bool) (w : World S)
      (a : Address) (k : ℕ) (leaf : Routable S)
      → address_of r topic is_shell ≡ some a
      → get_elem? r.leaves k ≡ some leaf
      → (k == r.self) ≡ false
      → Answers Q a payload leaf
      → AllKeep Q a payload r.leaves
      → KeptByRaw Q topic payload r.leaves
      → Q (mqtt_route r topic payload is_shell w).0
  unfolding mqtt_route
  mqtt_route-reaches Q r topic payload is_shell w a k leaf addressed at other answers keep raw =
      let routed = route_address r a payload w in
      let reached = route_address-reaches Q r payload w a k leaf at other answers keep in
      elim (Bool-cases routed.1) [
        | inl handled ↦ simp (mqtt_route, addressed, handled) reached
        | inr unhandled ↦
            simp (mqtt_route, addressed, unhandled)
              (offer_raw-keeps Q r.is_primary_comms topic payload r.leaves routed.0 false raw
                reached)
      ]
