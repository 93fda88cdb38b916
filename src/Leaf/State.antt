-- ===== src/Leaf/State.antt =====
-- The fields of the class `Leaf` (leaf.h) that addressing and message handling read, and the methods
-- that configure them. The registered values and the name stand in `values`; `ip_leaf` and
-- `pubsub_leaf` are the descriptions of the transports, where they are set.
use stacx.Prelude.{Bool, true, false, ◌||◌, [], ◌∷◌, ◌++◌, List, Option}
use stacx.Prelude.Text.{Text}
use stacx.Prelude.Int.{ℤ}
use stacx.Platform.{Platform}
use stacx.Leaf.Values.{Values}

pub record Leaf (P : Platform) : Type 0 where
  pub values : Values P
  pub open values use *
  pub leaf_unit : Text
  pub leaf_priority : Text
  pub base_topic : Text
  pub impersonate_backplane : Bool
  pub leaf_mute : Bool
  pub do_status : Bool
  pub class_debug_level : ℤ
  pub run : Bool
  pub started : Bool
  pub ip_leaf : Option Text
  pub pubsub_leaf : Option Text
  pub cmd_descriptions : P.Map Text
  pub leaf_cmd_descriptions : P.Map Text

-- map->size() is not 0
abbrev any_entry {ℓ} : {A : Type ℓ} → List A → Bool
any_entry [] = false
any_entry (x ∷ xs) = true

module _ {P : Platform} where
  -- describe(): type/name
  abbrev pub describe : Leaf P → Text
  describe l = l.leaf_type ++ b'/' ∷ l.leaf_name

  unfoldable pub set_unit : Leaf P → Text → Leaf P
  set_unit l u = record l { leaf_unit = u; impersonate_backplane = true }

  unfoldable pub set_mute : Leaf P → Bool → Leaf P
  set_mute l m = record l { leaf_mute = m }

  unfoldable pub use_priority : Leaf P → Text → Leaf P
  use_priority l default_priority = record l { leaf_priority = default_priority }

  unfoldable pub set_internal : Leaf P → Leaf P
  set_internal l = record l { leaf_mute = true; impersonate_backplane = true }

  unfoldable pub register_command : Leaf P → Text → Text → Leaf P
  register_command l cmd description = record l {
    cmd_descriptions = P.put l.cmd_descriptions cmd description;
  }

  unfoldable pub register_leaf_command : Leaf P → Text → Text → Leaf P
  register_leaf_command l cmd description = record l {
    leaf_cmd_descriptions = P.put l.leaf_cmd_descriptions cmd description;
  }

  -- hasHelp(): something is registered
  unfoldable pub leaf_has_help : Leaf P → Bool
  leaf_has_help l =
      any_entry (P.entries l.cmd_descriptions)
      || any_entry (P.entries l.leaf_cmd_descriptions)
      || any_entry (P.entries l.value_descriptions)
