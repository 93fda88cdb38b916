-- ===== src/Storage.antt =====
-- abstract_storage.h: the store of user preferences, a leaf of type "storage". The default and help
-- tables are present (all boards but ESP8266).
pub mod Messages
use stacx.Prelude.{ℕ, Bool, Option, none, some, not, ◌&&◌, leb, if◌then◌else◌, length}
use stacx.Prelude.Text.{Text, not_empty, lit}
use stacx.Prelude.Int.{ℤ, to_byte}
use stacx.Prelude.Number.{to_int, strtoul, show_nat, show_int}
use stacx.Platform.{Platform, has}
use stacx.Fault.{Result, ok, fault, unterminated}
use stacx.Words.{parse_bool}

pub record Storage (P : Platform) : Type 0 where
  pub values : P.Map Text
  pub pref_defaults : P.Map Text
  pub pref_descriptions : P.Map Text

module _ (P : Platform) where
  abbrev pub value_or : Option Text → Text → Text
  value_or none default_value = default_value
  value_or (some v) default_value = v

  -- The default and help tables are filled on the way.
  unfoldable pub remember : Storage P → Text → Text → Text → Storage P
  remember s name default_value description = record s {
    pref_defaults =
        if not_empty default_value && not (has P s.pref_defaults name)
        then P.put s.pref_defaults name default_value
        else s.pref_defaults;
    pref_descriptions =
        if not_empty description && not (has P s.pref_descriptions name)
        then P.put s.pref_descriptions name description
        else s.pref_descriptions;
  }

  -- get(name, defaultValue, description)
  unfoldable pub get : Storage P → Text → Text → Text → Text × Storage P
  unfolding remember
  get s name default_value description =
      (value_or (P.find s.values name) default_value, remember s name default_value description)

  unfoldable pub get_byte : Storage P → Text → ℕ → Text → ℕ × Storage P
  unfolding get
  get_byte s name default_value description =
      let (text, s') = get s name (show_nat default_value) description in
      (if not_empty text then to_byte (to_int text) else default_value, s')

  unfoldable pub get_int : Storage P → Text → ℤ → Text → ℤ × Storage P
  unfolding get
  get_int s name default_value description =
      let (text, s') = get s name (show_int default_value) description in
      (if not_empty text then to_int text else default_value, s')

  -- `String(defaultValue)` of a bool is "1" or "0".
  unfoldable pub get_bool : Storage P → Text → Bool → Text → Bool × Storage P
  unfolding get
  get_bool s name default_value description =
      let (text, s') = get s name (if default_value then lit "1" else lit "0") description in
      let parsed = parse_bool text default_value in
      (
        if not_empty text
            then (if parsed.valid then parsed.value else default_value)
            else default_value,
        s',
      )

  -- `strncpy` into 32 bytes leaves no terminator when the text has 32 characters or more.
  unfoldable pub get_ulong : Storage P → Text → ℕ → Text → Result (ℕ × Storage P)
  unfolding get
  get_ulong s name default_value description =
      let (text, s') = get s name (show_nat default_value) description in
      if not_empty text
      then (if leb 32 (length text) then fault unterminated else ok (strtoul text, s'))
      else ok (default_value, s')

  unfoldable pub get_float : Storage P → Text → P.Float → Text → P.Float × Storage P
  unfolding get
  get_float s name default_value description =
      let (text, s') = get s name (P.show_float default_value) description in
      (if not_empty text then P.to_float text else default_value, s')

  unfoldable pub get_double : Storage P → Text → P.Double → Text → P.Double × Storage P
  unfolding get
  get_double s name default_value description =
      let (text, s') = get s name (P.show_double default_value) description in
      (if not_empty text then P.to_double text else default_value, s')

  unfoldable pub put : Storage P → Text → Text → Storage P
  put s name value = record s { values = P.put s.values name value }

  unfoldable pub remove : Storage P → Text → Storage P
  remove s name = record {
    pref_defaults = P.remove s.pref_defaults name;
    pref_descriptions = P.remove s.pref_descriptions name;
    values = P.remove s.values name;
  }

  unfoldable pub set_description : Storage P → Text → Text → Storage P
  set_description s name value =
      if not_empty value
      then record s { pref_descriptions = P.put s.pref_descriptions name value }
      else s

  unfoldable pub set_default : Storage P → Text → Text → Storage P
  set_default s name value = record s { pref_defaults = P.put s.pref_defaults name value }

  unfoldable pub put_byte : Storage P → Text → ℕ → Storage P
  unfolding put
  put_byte s name value = put s name (show_nat value)

  unfoldable pub put_int : Storage P → Text → ℤ → Storage P
  unfolding put
  put_int s name value = put s name (show_int value)

  unfoldable pub put_ulong : Storage P → Text → ℕ → Storage P
  unfolding put
  put_ulong s name value = put s name (show_nat value)

  unfoldable pub put_float : Storage P → Text → P.Float → Storage P
  unfolding put
  put_float s name value = put s name (P.show_float value)

  unfoldable pub put_double : Storage P → Text → P.Double → Storage P
  unfolding put
  put_double s name value = put s name (P.show_double value)
