-- ===== src/Pubsub/Route/Offers.antt =====
-- Who is called when a message is routed (`_mqtt_route` of abstract_pubsub.h).
use stacx.Prelude.{
  ℕ, zero, suc, ◌+◌, ◌==◌, ◌≡◌, Bool, true, false, not, ◌||◌, ◌&&◌, some, [], ◌∷◌, List, get_elem?,
  Bool-cases, arith, inl, inr,
}
use stacx.Prelude.Text.{Text}
use stacx.Pubsub.Address.{Address}
use stacx.Pubsub.Route.{World, Routable, offer}

module _ {S : Type 0} where
  -- A property of the state survives each call that a leaf may get for the message: it is only called
  -- when it runs and wants the topic.
  pub record Keeps (Q : World S → Type 0) (a : Address) (payload : Text) (leaf : Routable S)
      : Type 0 where
    pub receives :
        (w : World S)
        → Q w
        → leaf.can_run w ≡ true
        → leaf.wants_topic w a.device_type a.device_name a.device_topic ≡ true
        → Q (leaf.mqtt_receive w a.device_type a.device_name a.device_topic payload).0

  abbrev pub AllKeep : (World S → Type 0) → Address → Text → List (Routable S) → Type 0
  AllKeep Q a payload [] = Unit
  AllKeep Q a payload (leaf ∷ leaves) = Keeps Q a payload leaf × AllKeep Q a payload leaves

  -- The condition under which the loop passes over a leaf.
  abbrev passes_over : ℕ → Address → ℕ → Routable S → World S → Bool → Bool
  passes_over self a i leaf w handled =
      not (leaf.can_run w)
      || (i == self && handled)
      || not (leaf.wants_topic w a.device_type a.device_name a.device_topic)

  offer-keeps :
      (Q : World S → Type 0) (self : ℕ) (a : Address) (payload : Text) (i : ℕ)
      (leaves : List (Routable S)) (w : World S) (handled : Bool)
      → AllKeep Q a payload leaves
      → Q w
      → Q (offer self a payload i leaves w handled).0
  unfolding offer
  offer-keeps Q self a payload i [] w handled keep q = q
  offer-keeps Q self a payload i (leaf ∷ leaves) w handled keep q =
      elim (Bool-cases (passes_over self a i leaf w handled)) [
        | inl over ↦
            simp (offer, over) (offer-keeps Q self a payload (suc i) leaves w handled keep.1 q)
        | inr called ↦
            let receive = leaf.mqtt_receive w a.device_type a.device_name a.device_topic payload in
            let kept = keep.0.receives w q (ground arith) (ground arith) in
            simp (offer, called)
              (offer-keeps Q self a payload (suc i) leaves receive.0 (receive.1 || handled) keep.1
                kept)
      ]

  -- The leaf runs and wants the message whatever the others did, and its handler brings Q about.
  pub record Answers (Q : World S → Type 0) (a : Address) (payload : Text) (leaf : Routable S)
      : Type 0 where
    pub runs : (w : World S) → leaf.can_run w ≡ true
    pub wants : (w : World S) → leaf.wants_topic w a.device_type a.device_name a.device_topic ≡ true
    pub brings :
        (w : World S) → Q (leaf.mqtt_receive w a.device_type a.device_name a.device_topic payload).0

  pub offer-reaches :
      (Q : World S → Type 0) (self : ℕ) (a : Address) (payload : Text) (i k : ℕ)
      (leaves : List (Routable S)) (leaf : Routable S) (w : World S) (handled : Bool)
      → get_elem? leaves k ≡ some leaf
      → (i + k == self) ≡ false
      → Answers Q a payload leaf
      → AllKeep Q a payload leaves
      → Q (offer self a payload i leaves w handled).0
  unfolding offer
  offer-reaches Q self a payload i k [] leaf w handled at other answers keep = absurd (ground arith)
  offer-reaches Q self a payload i zero (first ∷ leaves) leaf w handled at other answers keep =
      let same : first ≡ leaf = ground arith in
      let A : Answers Q a payload first = rw same answers in
      let receive = first.mqtt_receive w a.device_type a.device_name a.device_topic payload in
      let called : passes_over self a i first w handled ≡ false =
        ground (arith, A.runs w, A.wants w) in
      simp (offer, called)
        (offer-keeps Q self a payload (suc i) leaves receive.0 (receive.1 || handled) keep.1
          (A.brings w))
  offer-reaches Q self a payload i (suc k) (first ∷ leaves) leaf w handled at other answers keep =
      let receive = first.mqtt_receive w a.device_type a.device_name a.device_topic payload in
      let rest = λ (v : World S) (h : Bool).
        offer-reaches Q self a payload (suc i) k leaves leaf v h at (ground arith) answers keep.1 in
      elim (Bool-cases (passes_over self a i first w handled)) [
        | inl over ↦ simp (offer, over) (rest w handled)
        | inr called ↦ simp (offer, called) (rest receive.0 (receive.1 || handled))
      ]
