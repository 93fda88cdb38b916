-- ===== src/Leaf/Help.antt =====
-- The help listing of `Leaf::mqtt_receive` and `getValueHelp` (leaf.h).
use stacx.Prelude.{
  ltb, is_some, ◌+◌, Bool, true, false, not, ◌||◌, ◌&&◌, none, some, [], ◌∷◌, ◌++◌, List,
  if◌then◌else◌, drop,
}
use stacx.Prelude.Text.{Text, lit, text_eq, contains, index_of, substring, not_empty}
use stacx.Platform.{Platform}
use stacx.Fault.{Result, ok, ◌>>=◌}
use stacx.Leaf.Value.{Value, can_get, can_set, has_help, kind_name, as_string}
use stacx.Leaf.State.{Leaf, describe}
use stacx.Leaf.Action.{Action, publish}

-- The arguments of the command, after their parsing.
pub record Query : Type 0 where
  pub show_all : Bool
  pub all_kinds : Bool
  pub kind : Text
  pub filter : Text

-- "help [type] [filter]", or for help_all only a filter; a payload of "1" stands for none.
unfoldable pub parse_query : Bool → Text → Query
parse_query is_help payload =
    let argument = if text_eq payload (lit "1") then [] else payload in
    let one_word : Query = record {
      show_all = false;
      all_kinds = not (not_empty argument);
      kind = argument;
      filter = [];
    } in
    if is_help
    then elim (index_of argument b' ') [
      | none ↦ one_word
      | some space_pos ↦
          if ltb 0 space_pos
          then record {
            show_all = false;
            all_kinds = false;
            kind = substring argument 0 space_pos;
            filter = drop (space_pos + 1) argument;
          }
          else one_word
    ]
    else record { show_all = true; all_kinds = true; kind = []; filter = argument }

-- The loops skip a key that does not contain the filter.
abbrev pub skips : Query → Text → Bool
skips q key = not_empty q.filter && not (contains key q.filter)

-- One more member of a JSON object: ,"name":"text"
abbrev pub member : Text → Text → Text
member name text = lit ",\"" ++ name ++ lit "\":\"" ++ text ++ lit "\""

module _ {P : Platform} where
  unfoldable pub command_help : Leaf P → Text → Text → Text
  command_help l key desc =
      lit "{\"name\":\""
      ++ key
      ++ lit "\",\"type\":\"cmd\""
      ++ (if not_empty desc then member (lit "desc") desc else [])
      ++ member (lit "from") (describe l)
      ++ lit "}"

  -- The loops over the command tables; `prefix` is the leaf's own name for the second of them.
  unfoldable pub list_commands : Leaf P → Query → Text → List (Text × Text) → List Action
  unfolding command_help
  list_commands l q prefix [] = []
  list_commands l q prefix ((key, desc) ∷ table) =
      let rest = list_commands l q prefix table in
      if not (skips q key) && (not_empty desc || q.show_all)
      then publish (lit "help/cmd/" ++ prefix ++ key) (command_help l (prefix ++ key) desc) ∷ rest
      else rest

  -- getValueHelp(name, val)
  unfoldable pub value_help : Leaf P → Text → Value → Result Text
  unfolding as_string
  value_help l name val =
      let from = member (lit "acl") val.acl_str ++ member (lit "from") (describe l) ++ lit "}" in
      let head =
        lit "{\"name\":\""
        ++ name
        ++ lit "\",\"type\":\"val\""
        ++ member (lit "kind") (kind_name val.kind)
        ++ (if has_help val then member (lit "desc") val.description else [])
        ++ (if not_empty val.default_value then member (lit "default") val.default_value else []) in
      if is_some val.value
      then (as_string l.memory val >>= λ current. ok (
          head
          ++ (if text_eq current val.default_value then [] else member (lit "current") current)
          ++ from))
      else ok (head ++ from)

  -- The loops over the values: those that `wanted` selects, under the topic `prefix`.
  unfoldable pub list_values :
      Leaf P → Query → (Value → Bool) → Text → List (Text × Value) → Result (List Action)
  unfolding value_help
  list_values l q wanted prefix [] = ok []
  list_values l q wanted prefix ((key, val) ∷ table) =
      let rest = list_values l q wanted prefix table in
      if not (skips q key) && wanted val
      then (value_help l key val >>= λ help.
          rest >>= λ more. ok (publish (prefix ++ key) help ∷ more))
      else rest

  -- The branch for "cmd/help" (`is_help`) and "cmd/help_all".
  unfoldable pub help : Leaf P → Bool → Text → Result (List Action)
  unfolding parse_query list_commands list_values can_get can_set
  help l is_help payload =
      let q = parse_query is_help payload in
      let commands =
        if q.all_kinds || text_eq q.kind (lit "cmd")
        then list_commands l q [] (P.entries l.cmd_descriptions)
          ++ list_commands l q (l.leaf_name ++ lit "_") (P.entries l.leaf_cmd_descriptions)
        else [] in
      let values = P.entries l.value_descriptions in
      let settings =
        if q.all_kinds || text_eq q.kind (lit "setting")
        then list_values l q (λ v. q.show_all || has_help v) (lit "help/set/") values
        else ok [] in
      let by_access =
        if text_eq q.kind (lit "set")
        then list_values l q (λ v. can_set v && has_help v) (lit "help/set/") values
        else if text_eq q.kind (lit "get")
        then list_values l q (λ v. can_get v && has_help v) (lit "help/get/") values
        else ok [] in
      (settings >>= λ s. by_access >>= λ a. ok (commands ++ s ++ a))
