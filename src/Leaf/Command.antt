-- ===== src/Leaf/Command.antt =====
-- The command branch of `Leaf::mqtt_receive` (leaf.h): which registered command a topic means, and the
-- topic that its handler is given.
pub mod Agreement
use stacx.Prelude.{
  ◌+◌, Bool, ◌||◌, ◌&&◌, Option, none, some, ◌++◌, if◌then◌else◌, length, drop, ltb,
}
use stacx.Prelude.Text.{Text, lit, starts_with, index_of, substring}
use stacx.Platform.{Platform, has}
use stacx.Leaf.State.{Leaf}

module _ {P : Platform} where
  -- The test for a command with arguments: "do/" or "do/+" among the leaf's commands.
  unfoldable pub has_leader : Leaf P → Text → Bool
  has_leader l leader =
      has P l.cmd_descriptions leader || has P l.cmd_descriptions (leader ++ lit "+")

  -- The same after the leaf's own name.
  unfoldable pub has_leaf_leader : Leaf P → Text → Bool
  has_leaf_leader l leader =
      let word = drop (length l.leaf_name + 1) leader in
      starts_with leader (l.leaf_name ++ lit "_")
      && (has P l.leaf_cmd_descriptions word || has P l.leaf_cmd_descriptions (word ++ lit "+"))

  -- The part of the branch that looks for the whole topic.
  unfoldable pub resolve_exact : Leaf P → Text → Option Text
  resolve_exact l topic =
      let word = drop (length l.leaf_name + 1) topic in
      if has P l.cmd_descriptions topic
      then some topic
      else if starts_with topic (l.leaf_name ++ lit "_") && has P l.leaf_cmd_descriptions word
      then some word
      else none

  -- The whole branch, on the topic after "cmd/": `none` is an unhandled command.
  unfoldable pub resolve_command : Leaf P → Text → Option Text
  resolve_command l topic = elim (index_of topic b'/') [
    | none ↦ resolve_exact l topic
    | some word_end ↦
        let leader = substring topic 0 (word_end + 1) in
        if ltb 0 word_end && has_leader l leader
        then some topic
        else if ltb 0 word_end && has_leaf_leader l leader
        then some (drop (length l.leaf_name + 1) topic)
        else resolve_exact l topic
  ]
