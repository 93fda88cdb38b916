-- ===== src/Taps.antt =====
-- How leaves find one another and subscribe to one another's publications (leaf.h: `find`,
-- `find_type`, `get_leaf…`, `install_taps`, `tap`, `add_tap`, `get_tap`, `publish`). A leaf pointer is
-- a position in the table `leaves`.
pub mod TargetList
pub mod Finding
pub mod Linking
pub mod Tests
use TargetList.{Spec, parse_targets}
use stacx.Prelude.{
  ℕ, suc, ◌+◌, Bool, true, false, not, ◌||◌, ◌&&◌, Option, none, some, [], ◌∷◌, ◌++◌, List, map,
  if◌then◌else◌, drop, take, get_elem?, set,
}
use stacx.Prelude.Text.{Text, lit, text_eq, index_of, substring, not_empty}
use stacx.Platform.{Platform}

pub record Tap : Type 0 where
  pub alias : Text
  pub target : ℕ

-- One entry of the table. `taps` are the subscribers, by name; `tap_sources` the publishers, by alias.
pub record Node (P : Platform) : Type 0 where
  pub leaf_type : Text
  pub leaf_name : Text
  pub run : Bool
  pub taps : P.Map Tap
  pub tap_sources : P.Map ℕ

abbrev pub Network : Platform → Type 0
Network P = List (Node P)

-- The first position from `i` on whose entry passes the test.
unfoldable pub find_from {ℓ} : {A : Type ℓ} → (A → Bool) → ℕ → List A → Option ℕ
find_from test i [] = none
find_from test i (x ∷ xs) =
    let later = find_from test (suc i) xs in if test x then some i else later

module _ {P : Platform} where
  -- An empty name or type matches every leaf.
  unfoldable pub matches : Text → Text → Node P → Bool
  matches find_name find_type n =
      (not (not_empty find_name) || text_eq n.leaf_name find_name)
      && (not (not_empty find_type) || text_eq n.leaf_type find_type)

  unfoldable pub find : Network P → Text → Text → Option ℕ
  unfolding find_from
  find net find_name find_type = find_from (matches find_name find_type) 0 net

  unfoldable pub find_type : Network P → Text → Option ℕ
  unfolding find_from
  find_type net type = find_from (λ n. text_eq n.leaf_type type && n.run) 0 net

  unfoldable pub get_leaf : Network P → Text → Text → Option ℕ
  unfolding find_from
  get_leaf net type name =
      find_from (λ n. text_eq n.leaf_type type && text_eq n.leaf_name name) 0 net

  unfoldable pub get_leaf_by_type : Network P → Text → Option ℕ
  unfolding find_from
  get_leaf_by_type net type = find_from (λ n. text_eq n.leaf_type type) 0 net

  -- The key is "name" or "type/name".
  unfoldable pub get_leaf_by_name : Network P → Text → Option ℕ
  unfolding find_from get_leaf
  get_leaf_by_name net key = elim (index_of key b'/') [
    | none ↦ find_from (λ n. text_eq n.leaf_name key) 0 net
    | some slash_pos ↦ get_leaf net (substring key 0 slash_pos) (drop (slash_pos + 1) key)
  ]

  -- The table after a change of one entry.
  abbrev pub update : Network P → ℕ → (Node P → Node P) → Network P
  update net i change = elim (get_elem? net i) [ none ↦ net | some n ↦ set net i (change n) ]

  -- publisher->add_tap(alias, subscriber): filed under the subscriber's name
  unfoldable pub add_tap : Network P → ℕ → Text → ℕ → Network P
  add_tap net publisher alias subscriber = elim (get_elem? net subscriber) [
    | none ↦ net
    | some s ↦ update net publisher (λ n. record n {
      taps = P.put n.taps s.leaf_name (record { alias = alias; target = subscriber });
    })
  ]

  abbrev pub add_source : Network P → ℕ → Text → ℕ → Network P
  add_source net self alias publisher =
      update net self (λ n. record n { tap_sources = P.put n.tap_sources alias publisher })

  unfoldable pub tap : Network P → ℕ → Text → Text → Text → Network P
  unfolding find add_tap
  tap net self publisher alias type = elim (find net publisher type) [
    | none ↦ net
    | some target ↦ add_source (add_tap net target alias self) self alias target
  ]

  -- tap_type(type): under the subscriber's own name, and filed under the publisher's
  unfoldable pub tap_type : Network P → ℕ → Text → Network P
  unfolding find_type add_tap
  tap_type net self type = elim (find_type net type) [
    | none ↦ net
    | some target ↦ elim (get_elem? net self) [
      | none ↦ net
      | some me ↦ elim (get_elem? net target) [
        | none ↦ net
        | some t ↦ add_source (add_tap net target me.leaf_name self) self t.leaf_name target
      ]
    ]
  ]

  unfoldable pub tap_all : Network P → ℕ → List Spec → Network P
  unfolding tap
  tap_all net self [] = net
  tap_all net self (s ∷ specs) = tap_all (tap net self s.name s.alias s.type) self specs

  unfoldable pub install_taps : Network P → ℕ → Text → Network P
  unfolding tap_all parse_targets
  install_taps net self target = tap_all net self (parse_targets target)

  unfoldable pub get_tap : Network P → ℕ → Text → Option ℕ
  get_tap net self alias = elim (get_elem? net self) [
    | none ↦ none
    | some n ↦ P.find n.tap_sources alias
  ]

  -- The first source whose leaf has the type.
  source_of_type : Network P → Text → List (Text × ℕ) → Option ℕ
  source_of_type net type [] = none
  source_of_type net type ((alias, target) ∷ rest) =
      let later = source_of_type net type rest in
      elim (get_elem? net target) [
        | none ↦ later
        | some n ↦ if text_eq n.leaf_type type then some target else later
      ]

  unfoldable pub get_tap_by_type : Network P → ℕ → Text → Option ℕ
  unfolding source_of_type
  get_tap_by_type net self type = elim (get_elem? net self) [
    | none ↦ none
    | some n ↦ source_of_type net type (P.entries n.tap_sources)
  ]

-- A call of `mqtt_receive` on another leaf.
pub record Delivery : Type 0 where
  pub target : ℕ
  pub type : Text
  pub name : Text
  pub topic : Text
  pub payload : Text

-- publish(topic, payload): one delivery for each subscriber, under the alias that it chose
unfoldable pub publish : {P : Platform} → Node P → Text → Text → List Delivery
publish {P} n topic payload =
    map
      (λ (e : Text × Tap). record {
        target = e.1.target;
        type = n.leaf_type;
        name = e.1.alias;
        topic = topic;
        payload = payload;
      })
      (P.entries n.taps)
