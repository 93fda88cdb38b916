-- ===== src/Pubsub/Address.antt =====
-- How `_mqtt_route` of abstract_pubsub.h finds out to whom a topic is addressed.
pub mod Roundtrip
use stacx.Prelude.{
  ℕ, zero, suc, ◌+◌, ◌-◌, Bool, true, false, not, ◌||◌, ◌&&◌, Option, none, some, [], ◌∷◌, ◌++◌,
  List, if◌then◌else◌, length, drop,
}
use stacx.Prelude.Text.{
  Text, lit, text_eq, starts_with, index_of, index_of_from, substring, replace_char, not_empty,
}

pub record Address : Type 0 where
  pub device_type : Text
  pub device_name : Text
  pub device_target : Text
  pub device_topic : Text

-- pos = Topic.indexOf('/', lastPos); what stands before the slash, and the position after it
unfoldable pub field : Text → ℕ → Option (Text × ℕ)
field topic last_pos = elim (index_of_from topic b'/' last_pos) [
  | none ↦ none
  | some pos ↦ some (substring topic last_pos pos, pos + 1)
]

-- The topic devices/<target>/<type>/<name>/<topic>, or devices/<target>/{cmd,get,set}/… for every
-- leaf of the device. Without the parts of an address there is none.
unfoldable pub parse_device_topic : Text → Text → Option Address
unfolding field
parse_device_topic root_topic topic =
    let header = root_topic ++ lit "devices/" in
    if not (starts_with topic header)
    then none
    else elim (field topic (length root_topic + length (lit "devices/"))) [
      | none ↦ none
      | some (device_target, type_pos) ↦ elim (field topic type_pos) [
        | none ↦ none
        | some (device_type, name_pos) ↦
            if text_eq device_type (lit "cmd")
              || text_eq device_type (lit "get")
              || text_eq device_type (lit "set")
            then some (record {
              device_type = lit "*";
              device_name = lit "*";
              device_target = device_target;
              device_topic = drop type_pos topic;
            })
            else elim (field topic name_pos) [
              | none ↦ none
              | some (device_name, topic_pos) ↦ some (record {
                device_type = device_type;
                device_name = device_name;
                device_target = device_target;
                device_topic = drop topic_pos topic;
              })
            ]
      ]
    ]

-- s.replace(from, to) for a `from` that is not empty: the occurrences are found from left to right,
-- and `skip` characters of the last one are left.
abbrev pub replace_skip : Text → Text → ℕ → Text → Text
replace_skip from to skip [] = []
replace_skip from to (suc skip) (a ∷ s) = replace_skip from to skip s
replace_skip from to zero (a ∷ s) = elim (starts_with (a ∷ s) from) [
  | true ↦ to ++ replace_skip from to (length from - 1) s
  | false ↦ a ∷ replace_skip from to zero s
]

abbrev pub replace : Text → Text → Text → Text
replace s from to = replace_skip from to 0 s

-- The fields that the parsing of a topic without a device address reads.
pub record Plain : Type 0 where
  pub base_topic : Text
  pub has_priority : Bool
  pub use_flat_topic : Bool

-- remove(0, indexOf('/') + 1): the leading priority
abbrev pub snip_first : Text → Text
snip_first t = elim (index_of t b'/') [ none ↦ t | some pos ↦ drop (pos + 1) t ]

abbrev pub when_starts : Text → Text → Text → Text
when_starts t from to = if starts_with t from then replace t from to else t

abbrev pub snip_priority : Text → Text
snip_priority t =
    when_starts (when_starts (snip_first t) (lit "read-request/") (lit "get/"))
      (lit "write-request/") (lit "set/")

abbrev pub snip_base : Text → Text → Text
snip_base base t = if starts_with t base then drop (length base) t else t

-- The topic without the base topic, a leading slash and the priority, unflattened.
unfoldable pub plain_topic : Plain → Text → Text
plain_topic p topic =
    let snipped = snip_base (lit "/") (snip_base p.base_topic topic) in
    let unprioritised =
      if p.has_priority && not (starts_with snipped (lit "_"))
      then snip_priority snipped
      else snipped in
    if p.use_flat_topic then replace_char unprioritised b'-' b'/' else unprioritised

unfoldable pub parse_plain_topic : Plain → Text → Address
unfolding plain_topic
parse_plain_topic p topic = record {
  device_type = lit "*";
  device_name = lit "*";
  device_target = lit "*";
  device_topic = plain_topic p topic;
}
