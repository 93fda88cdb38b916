-- ===== src/Leaf/Action.antt =====
-- What a message handler does to the outside, in order: `mqtt_publish`, and calls of the virtual
-- methods that publish.
use stacx.Prelude.{Bool, List}
use stacx.Prelude.Text.{Text}
use stacx.Platform.{Platform}
use stacx.Leaf.State.{Leaf}

pub data Action : Type 0 where
  publish : Text → Text → Action
  config_pub stats_pub status_pub describe_taps describe_output_taps : Action

pub record Outcome (P : Platform) : Type 0 where
  pub handled : Bool
  pub actions : List Action
  pub after : Leaf P
