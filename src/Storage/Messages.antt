-- ===== src/Storage/Messages.antt =====
-- The constructor, the commands and the messages of the preference store (abstract_storage.h). What
-- the base class Leaf does with the topics that the store does not know is a parameter.
pub mod Roundtrip
pub mod Tests
use stacx.Prelude.{
  ℕ, zero, suc, ◌+◌, Bool, true, false, not, ◌||◌, ◌&&◌, Option, none, some, is_some, [], ◌∷◌, ◌++◌,
  List, map, if◌then◌else◌, length, drop, ltb,
}
use stacx.Prelude.Text.{Text, lit, text_eq, starts_with, index_of, contains, substring, not_empty}
use stacx.Platform.{Platform}
use stacx.Storage.{Storage, get, put, remove}

-- What became of a message: the publications (topic and payload), in order, and the store.
pub record Response (P : Platform) : Type 0 where
  pub handled : Bool
  pub published : List (Text × Text)
  pub after : Storage P

-- The operations that a subclass overrides, and those of the class Leaf.
pub record Overrides (P : Platform) : Type 0 where
  pub load : Storage P → Text → Storage P
  pub save : Storage P → Text → Storage P
  pub base_command : Storage P → Text → Text → Response P
  pub base_receive : Storage P → Text → Text → Response P
  pub base_wants : Storage P → Text → Bool

-- if ((pos = t.indexOf(c)) > 0): what stands before and after the separator
unfoldable pub cut : Text → ℕ → Option (Text × Text)
cut t c = elim (index_of t c) [
  | none ↦ none
  | some pos ↦ if ltb 0 pos then some (substring t 0 pos, drop (pos + 1) t) else none
]

abbrev pub or_empty : Text → Text
or_empty value = if not_empty value then value else lit "[empty]"

abbrev pub list_entries : Text → Text → List (Text × Text) → List (Text × Text)
list_entries kind filter [] = []
list_entries kind filter ((key, value) ∷ rest) =
    let more = list_entries kind filter rest in
    if not_empty filter && not (contains key filter)
    then more
    else (lit "status/" ++ kind ++ lit "/" ++ key, or_empty value) ∷ more

module _ {P : Platform} where
  -- One entry of the defaults: name=value, or a name alone.
  unfoldable pub put_default : Storage P → Text → Storage P
  unfolding cut put
  put_default s entry = elim (cut entry b'=') [
    | none ↦ put P s entry []
    | some (pref_name, pref_value) ↦ put P s pref_name pref_value
  ]

  -- The do-while loop of the constructor, with fuel: each round shortens the text.
  unfoldable pub put_defaults : ℕ → Storage P → Text → Storage P
  unfolding cut put_default
  put_defaults zero s p = s
  put_defaults (suc fuel) s p = elim (cut p b',') [
    | none ↦ put_default s p
    | some (entry, rest) ↦
        let stored = put_default s entry in
        elim (not_empty rest) [ true ↦ put_defaults fuel stored rest | false ↦ stored ]
  ]

  unfoldable pub create : Text → Storage P
  unfolding put_defaults
  create defaults =
      let empty : Storage P = record {
        values = P.empty;
        pref_defaults = P.empty;
        pref_descriptions = P.empty;
      } in
      if not_empty defaults then put_defaults (suc (length defaults)) empty defaults else empty

  -- status_pub, and the command "dump": every entry
  unfoldable pub status_pub : Storage P → List (Text × Text)
  status_pub s = map (λ (e : Text × Text). (lit "status/" ++ e.0, e.1)) (P.entries s.values)

  abbrev pub response : Storage P → List (Text × Text) → Response P
  response s published = record { handled = true; published = published; after = s }

  unfoldable pub command_handler : Overrides P → Storage P → Text → Text → Response P
  unfolding status_pub remove
  command_handler o s topic payload =
      if text_eq topic (lit "prefs") || text_eq topic (lit "values")
      then (let kind = if text_eq topic (lit "prefs") then lit "pref" else lit "value" in
          let filter =
            if not_empty payload && not (text_eq payload (lit "1")) then payload else [] in
          response s (list_entries kind filter (P.entries s.values)))
      else if text_eq topic (lit "dump")
      then response s (status_pub s)
      else if text_eq topic (lit "load")
      then response (o.load s payload) []
      else if text_eq topic (lit "save")
      then response (o.save s payload) []
      else if text_eq topic (lit "clear")
      then response (o.save (remove P s payload) []) []
      else o.base_command s topic payload

  unfoldable pub wants_topic : Overrides P → Storage P → Text → Bool
  wants_topic o s topic =
      starts_with topic (lit "set/pref/")
      || starts_with topic (lit "get/pref/")
      || o.base_wants s topic

  -- An empty value removes the preference.
  unfoldable pub set_preference : Storage P → Text → Text → Response P
  unfolding put remove
  set_preference s name value =
      if not_empty value
      then response (put P s name value) ((lit "status/pref/" ++ name, value) ∷ [])
      else response (remove P s name) []

  unfoldable pub get_preference : Storage P → Text → Response P
  unfolding get
  get_preference s name =
      let (value, next) = get P s name [] [] in
      response next ((lit "status/pref/" ++ name, or_empty value) ∷ [])

  -- "set/pref" with "name value" as the payload.
  unfoldable pub set_from_payload : Storage P → Text → Text → Response P
  unfolding cut set_preference
  set_from_payload s topic payload = elim (cut payload b' ') [
    | none ↦ set_preference s topic payload
    | some (name, value) ↦ set_preference s name value
  ]

  unfoldable pub receive : Overrides P → Storage P → Text → Text → Response P
  unfolding set_preference get_preference set_from_payload
  receive o s topic payload =
      if starts_with topic (lit "set/pref/")
      then set_preference s (drop 9 topic) payload
      else if text_eq topic (lit "set/pref")
      then set_from_payload s topic payload
      else if starts_with topic (lit "get/pref/")
      then get_preference s (drop 9 topic)
      else if text_eq topic (lit "get/pref")
      then get_preference s payload
      else o.base_receive s topic payload
