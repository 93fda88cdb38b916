-- ===== src/Leaf/Receive.antt =====
-- `Leaf::mqtt_receive` of leaf.h: what a leaf does with a message.
pub mod Wanted
pub mod Wildcards
pub mod Tests
pub mod Returns
use stacx.Prelude.{
  Bool, true, false, ◌||◌, Option, none, some, [], ◌∷◌, ◌++◌, if◌then◌else◌, not, take, drop,
}
use stacx.Prelude.Text.{Text, lit, text_eq, starts_with}
use stacx.Prelude.Int.{pos, int_eq}
use stacx.Prelude.Number.{to_int}
use stacx.Platform.{Platform}
use stacx.Fault.{Result, ok, ◌>>=◌}
use stacx.Words.{truth_lc}
use stacx.Leaf.Value.{as_string}
use stacx.Leaf.Values.{Hooks, set_value, get_value}
use stacx.Leaf.State.{Leaf, describe}
use stacx.Leaf.Action.{
  Action, publish, config_pub, stats_pub, status_pub, describe_taps, describe_output_taps, Outcome,
}
use stacx.Leaf.Command.{resolve_command}
use stacx.Leaf.Help.{help}

-- A message: the type and name of the sender (or of the addressee), the topic and the payload.
pub record Message : Type 0 where
  pub type : Text
  pub name : Text
  pub topic : Text
  pub payload : Text

-- The virtual methods that a subclass overrides.
pub record Virtuals (P : Platform) : Type 0 where
  pub hooks : Hooks P
  pub command_handler : Leaf P → Message → Outcome P

abbrev or_none : Option Text → Text
or_none none = lit "none"
or_none (some text) = text

module _ {P : Platform} where
  abbrev pub done : Leaf P → Action → Outcome P
  done l action = record { handled = true; actions = action ∷ []; after = l }

  unfoldable pub receive_command : Virtuals P → Leaf P → Message → Outcome P
  unfolding resolve_command
  receive_command v l m = elim (resolve_command l m.topic) [
    | none ↦ record { handled = false; actions = []; after = l }
    | some topic ↦ v.command_handler l (record m { topic = topic })
  ]

  unfoldable pub receive_set : Virtuals P → Leaf P → Message → Bool → Result (Outcome P)
  receive_set v l m direct = set_value v.hooks l.values m.topic m.payload direct true false >>= λ r.
      ok (record { handled = r.handled; actions = []; after = record l { values = r.after } })

  -- A get never uses the short name, also in a direct message.
  unfoldable pub receive_get : Leaf P → Message → Result (Outcome P)
  receive_get l m = elim (get_value l.values m.topic false) [
    | none ↦ ok (record { handled = false; actions = []; after = l })
    | some val ↦
        (as_string l.memory val >>= λ text. ok (done l (publish (lit "status/" ++ m.topic) text)))
  ]

  -- "cmd/leafstatus": both buffers hold 80 bytes.
  unfoldable pub leaf_status : Leaf P → Action
  leaf_status l = publish (take 79 (lit "status/leaf/" ++ describe l)) (
      take 79 (
        lit "canRun="
        ++ truth_lc l.run
        ++ lit " started="
        ++ truth_lc l.started
        ++ lit " ip="
        ++ or_none l.ip_leaf
        ++ lit " pubsub="
        ++ or_none l.pubsub_leaf))

  unfoldable pub receive : Virtuals P → Leaf P → Message → Bool → Result (Outcome P)
  unfolding leaf_status
  receive v l m direct =
      let topic = m.topic in
      let rest = record m { topic = drop 4 m.topic } in
      if text_eq topic (lit "set/debug_level")
      then ok (record {
        handled = true;
        actions = [];
        after = record l { class_debug_level = to_int m.payload };
      })
      else if text_eq topic (lit "cmd/help") || text_eq topic (lit "cmd/help_all")
      then (help l (text_eq topic (lit "cmd/help")) m.payload >>= λ actions.
          ok (record { handled = true; actions = actions; after = l }))
      else if text_eq topic (lit "cmd/config")
      then ok (done l config_pub)
      else if text_eq topic (lit "cmd/stats")
      then ok (done l stats_pub)
      else if text_eq topic (lit "cmd/status") || text_eq topic (lit "get/status")
      then ok (record {
        handled = true;
        actions =
            if l.do_status || not (int_eq (to_int m.payload) (pos 0)) then status_pub ∷ [] else [];
        after = l;
      })
      else if text_eq topic (lit "cmd/leafstatus")
      then ok (done l (leaf_status l))
      else if text_eq topic (lit "cmd/taps")
      then ok (record {
        handled = true;
        actions = describe_taps ∷ describe_output_taps ∷ [];
        after = l;
      })
      else if starts_with topic (lit "cmd/")
      then ok (receive_command v l rest)
      else if starts_with topic (lit "set/")
      then receive_set v l rest direct
      else if starts_with topic (lit "get/")
      then receive_get l rest
      else ok (record { handled = false; actions = []; after = l })
