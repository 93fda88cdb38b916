-- ===== src/Leaf/Values.antt =====
-- The registered values of a leaf (leaf.h): registering, loading from the preferences, setting and
-- getting.
pub mod Access
pub mod Persistence
pub mod Soundness
pub mod Preservation
use stacx.Prelude.{
  ℕ, zero, suc, ◌+◌, Bool, true, false, not, ◌&&◌, ◌||◌, Option, none, some, [], ◌∷◌, ◌++◌,
  if◌then◌else◌, is_some, length, get_elem?,
}
use stacx.Prelude.Text.{Text}
use stacx.Prelude.Int.{to_byte, to_ulong}
use stacx.Prelude.Number.{to_int}
use stacx.Platform.{Platform}
use stacx.Fault.{Result, ok, fault, null_pointer, ◌>>=◌}
use stacx.Storage
use stacx.Storage.{Storage}
use stacx.Leaf.Prefs.{load_pref, save_pref}
use stacx.Leaf.Value.{
  Kind, Acl, Value, Cell, bool_cell, byte_cell, int_cell, ulong_cell, float_cell, double_cell,
  str_cell, Memory, write, can_set, can_get, read_value, cell_eq, new_value,
}

pub record Values (P : Platform) : Type 0 where
  pub leaf_name : Text
  pub leaf_type : Text
  pub value_descriptions : P.Map Value
  pub memory : Memory P
  pub prefs : Option (Storage P)

-- What a subclass supplies: the custom setters, by name, and the virtual methods
-- `valueChangeHandler` and `parseBool`.
pub record Hooks (P : Platform) : Type 0 where
  pub setter : ℕ → Values P → Text → Value → Text → Values P × Bool
  pub value_change_handler : Values P → Text → Value → Values P
  pub parse_bool : Text → Bool → Bool

-- What `setValue` answers. `changed` is what it writes through `changed_r`, if it does.
pub record Reply (P : Platform) : Type 0 where
  pub handled : Bool
  pub changed : Option Bool
  pub after : Values P

module _ {P : Platform} where
  -- loadValue(name, val), with `prefsLeaf->get` on a NULL `prefsLeaf` as a fault
  unfoldable pub load_value : Hooks P → Values P → Text → Value → Result (Values P × Bool)
  unfolding load_pref read_value cell_eq
  load_value hooks s name val = elim val.setter [
    | some callback ↦ elim s.prefs [
      | none ↦ fault null_pointer
      | some store ↦
          let (payload, store') = Storage.get P store name [] [] in
          let (s', changed) =
            hooks.setter callback (record s { prefs = some store' }) name val payload in
          ok (if changed then hooks.value_change_handler s' name val else s', changed)
    ]
    | none ↦ elim val.value [
      | none ↦ fault null_pointer
      | some a ↦ do
        was ← read_value s.memory val
        loaded ← load_pref s.prefs name was
        let s' = record s { memory = write s.memory a loaded.0; prefs = loaded.1 }
        let changed = not (cell_eq loaded.0 was)
        ok (if changed then hooks.value_change_handler s' name val else s', changed)
    ]
  ]

  -- The loop of loadValues, from position `i` of the table; `n` values are left.
  load_values_from : Hooks P → ℕ → ℕ → Values P → Bool → Result (Values P × Bool)
  unfolding load_value
  load_values_from hooks zero i s changed = ok (s, changed)
  load_values_from hooks (suc n) i s changed = elim (get_elem? (P.entries s.value_descriptions) i) [
    | none ↦ load_values_from hooks n (i + 1) s changed
    | some (name, val) ↦
        if is_some val.value
        then (load_value hooks s name val >>= λ r.
            load_values_from hooks n (i + 1) r.0 (changed || r.1))
        else load_values_from hooks n (i + 1) s changed
  ]

  unfoldable pub load_values : Hooks P → Values P → Result (Values P × Bool)
  unfolding load_values_from
  load_values hooks s = load_values_from hooks (length (P.entries s.value_descriptions)) 0 s false

  unfoldable pub register_value :
      Hooks P → Values P → Text → Kind → Option ℕ → Text → Acl → Bool → Option ℕ → Result (Values P)
  unfolding load_value new_value
  register_value hooks s name kind value description acl save setter = do
    fresh ← new_value s.memory kind value acl save
    let val = record fresh { description = description; setter = setter }
    let s' = record s { value_descriptions = P.put s.value_descriptions name val }
    if save && is_some val.value then (load_value hooks s' name val >>= λ r. ok r.0) else ok s'

  -- leaf_name+"_"+name
  abbrev pub leaf_key : Values P → Text → Text
  leaf_key s name = s.leaf_name ++ b'_' ∷ name

  unfoldable pub register_leaf_value :
      Hooks P → Values P → Text → Kind → Option ℕ → Text → Acl → Bool → Option ℕ → Result (Values P)
  unfolding register_value
  register_leaf_value hooks s name = register_value hooks s (leaf_key s name)

  -- The table's entry for a topic, and the name of its preference. A direct message may leave the
  -- leaf's name off.
  unfoldable pub match_value : Values P → Text → Bool → Option (Text × Value)
  match_value s topic direct = elim (P.find s.value_descriptions topic) [
    | some val ↦ some (topic, val)
    | none ↦
        if direct
        then elim (P.find s.value_descriptions (leaf_key s topic)) [
          | some val ↦ some (leaf_key s topic, val)
          | none ↦ none
        ]
        else none
  ]

  -- The payload at the type of the variable. Numbers go through `toInt`, also an unsigned long.
  unfoldable pub parse_cell : Hooks P → Text → Cell P → Cell P
  parse_cell hooks payload (bool_cell b) = bool_cell (hooks.parse_bool payload b)
  parse_cell hooks payload (byte_cell n) = byte_cell (to_byte (to_int payload))
  parse_cell hooks payload (int_cell i) = int_cell (to_int payload)
  parse_cell hooks payload (ulong_cell n) = ulong_cell (to_ulong (to_int payload))
  parse_cell hooks payload (float_cell x) = float_cell (P.to_float payload)
  parse_cell hooks payload (double_cell x) = double_cell (P.to_double payload)
  parse_cell hooks payload (str_cell s) = str_cell payload

  -- The part of `setValue` that follows the checks.
  unfoldable pub assign : Hooks P → Values P → Text → Text → Value → Text → Bool → Result (Reply P)
  unfolding read_value cell_eq parse_cell save_pref
  assign hooks s topic pref_name val payload do_save = elim val.setter [
    | some callback ↦ ok (record {
      handled = true;
      changed = none;
      after = (hooks.setter callback s topic val payload).0;
    })
    | none ↦ elim val.value [
      | none ↦ fault null_pointer
      | some a ↦ do
        old ← read_value s.memory val
        let new = parse_cell hooks payload old
        if cell_eq new old
            then ok (record { handled = true; changed = some false; after = s })
            else (let s' = record s {
              memory = write s.memory a new;
              prefs = if do_save then save_pref s.prefs pref_name new else s.prefs;
            } in
                ok (record {
                  handled = true;
                  changed = some true;
                  after = hooks.value_change_handler s' topic val;
                }))
    ]
  ]

  unfoldable pub set_value :
      Hooks P → Values P → Text → Text → Bool → Bool → Bool → Result (Reply P)
  set_value hooks s topic payload direct allow_save override_perms =
      elim (match_value s topic direct) [
        | none ↦ ok (record { handled = false; changed = none; after = s })
        | some (pref_name, val) ↦
            if can_set val || override_perms
            then assign hooks s topic pref_name val payload (allow_save && val.save)
            else ok (record { handled = false; changed = none; after = s })
      ]

  -- getValue: the value found, if it may be read
  unfoldable pub get_value : Values P → Text → Bool → Option Value
  get_value s topic direct = elim (match_value s topic direct) [
    | none ↦ none
    | some (pref_name, val) ↦ if can_get val then some val else none
  ]
