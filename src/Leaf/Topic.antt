-- ===== src/Leaf/Topic.antt =====
-- Which topics a leaf has, and which it wants: `makeBaseTopic` and `wants_topic` of leaf.h.
use stacx.Prelude.{
  Bool, true, false, not, ◌||◌, ◌&&◌, Option, none, some, [], ◌++◌, if◌then◌else◌, length, drop,
}
use stacx.Prelude.Text.{Text, lit, text_eq, starts_with, index_of_from, substring, not_empty}
use stacx.Platform.{Platform, has}
use stacx.Leaf.Value.{can_get, can_set}
use stacx.Leaf.State.{Leaf, leaf_has_help}

-- The globals `_ROOT_TOPIC` and `device_id`.
pub record Device : Type 0 where
  pub root_topic : Text
  pub device_id : Text

module _ {P : Platform} where
  -- The argument is `pubsubLeaf->pubsubUseDeviceTopic()`, or `none` without a pubsub leaf.
  unfoldable pub base_topic_of : Device → Option Bool → Leaf P → Text
  base_topic_of d use_device_topic l =
      let device = d.root_topic ++ lit "devices/" ++ d.device_id ++ lit "/" in
      let by_type =
        if l.impersonate_backplane
        then device
        else device ++ l.leaf_type ++ lit "/" ++ l.leaf_name ++ lit "/" in
      let by_id =
        (d.root_topic ++ d.device_id ++ lit "/")
        ++ (if not_empty l.leaf_unit then l.leaf_unit ++ lit "/" else []) in
      elim use_device_topic [ none ↦ by_type | some b ↦ if b then by_type else by_id ]

  unfoldable pub make_base_topic : Device → Option Bool → Leaf P → Leaf P
  unfolding base_topic_of
  make_base_topic d use_device_topic l = record l {
    base_topic = base_topic_of d use_device_topic l;
  }

  -- The command branch of `wants_topic`; the topic begins with "cmd/".
  unfoldable pub wants_command : Leaf P → Text → Bool
  wants_command l topic =
      let prefix = l.leaf_name ++ lit "_" in
      elim (index_of_from topic b'/' 4) [
        | none ↦
            let word = drop 4 topic in
            has P l.cmd_descriptions word
            || (starts_with word l.leaf_name
                && (starts_with word prefix
                    && has P l.leaf_cmd_descriptions (drop (length prefix) word)))
        | some separator_pos ↦
            let word = substring topic 4 separator_pos in
            has P l.cmd_descriptions (word ++ lit "/")
            || (starts_with word l.leaf_name
                && (starts_with word prefix
                    && has P l.leaf_cmd_descriptions (drop (length prefix) word ++ lit "/")))
      ]

  -- The get and set branch: the value must be registered, and readable or writable.
  unfoldable pub wants_value : Leaf P → Text → Bool
  wants_value l topic = elim (P.find l.value_descriptions (drop 4 topic)) [
    | none ↦ false
    | some val ↦
        let is_set = starts_with topic (lit "set/") in
        (is_set && can_set val) || (not is_set && can_get val)
  ]

  unfoldable pub wants_topic : Leaf P → Text → Bool
  wants_topic l topic =
      if text_eq topic (lit "cmd/status") || text_eq topic (lit "cmd/config")
      then true
      else if (text_eq topic (lit "cmd/help") || text_eq topic (lit "cmd/help_all"))
          && leaf_has_help l
      then true
      else if starts_with topic (lit "cmd/")
      then wants_command l topic
      else if starts_with topic (lit "get/") || starts_with topic (lit "set/")
      then wants_value l topic
      else false
