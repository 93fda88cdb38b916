-- ===== src/Leaf/Prefs.antt =====
-- The preference accessors of leaf.h (`getPref` to `setDoublePref`), for the variable of a value. The
-- pointer `prefsLeaf` is NULL when no storage leaf was found.
pub mod Roundtrip
use stacx.Prelude.{Bool, true, false, Option, none, some, [], if◌then◌else◌}
use stacx.Prelude.Text.{Text, not_empty, lit}
use stacx.Prelude.Int.{to_int32}
use stacx.Platform.{Platform}
use stacx.Fault.{Result, ok, ◌>>=◌}
use stacx.Words.{yes_word, no_word, truth_lc}
use stacx.Storage.{
  Storage, get, get_byte, get_int, get_ulong, get_float, get_double, put, put_byte, put_int,
  put_float, put_double, set_description, set_default,
}
use stacx.Leaf.Value.{
  Cell, bool_cell, byte_cell, int_cell, ulong_cell, float_cell, double_cell, str_cell,
}

module _ {P : Platform} where
  -- getBoolPref(key, value): a text that is not a known word leaves the variable alone.
  unfoldable pub get_bool_pref : Storage P → Text → Bool → Bool × Storage P
  unfolding get set_description set_default
  get_bool_pref s key value =
      let (pref, s') =
        get P (set_default P (set_description P s key []) key (truth_lc value)) key [] [] in
      (
        if not_empty pref
            then (if yes_word pref then true else if no_word pref then false else value)
            else value,
        s',
      )

  -- getBoolPref, getBytePref, …: the new content of the variable, and the store.
  unfoldable pub get_pref : Storage P → Text → Cell P → Result (Cell P × Storage P)
  unfolding get_bool_pref get get_byte get_int get_ulong get_float get_double
  get_pref s key (bool_cell b) = let (b', s') = get_bool_pref s key b in ok (bool_cell b', s')
  get_pref s key (byte_cell n) = let (n', s') = get_byte P s key n [] in ok (byte_cell n', s')
  get_pref s key (int_cell i) = let (i', s') = get_int P s key i [] in ok (int_cell i', s')
  get_pref s key (ulong_cell n) = get_ulong P s key n [] >>= λ r. ok (ulong_cell r.0, r.1)
  get_pref s key (float_cell x) = let (x', s') = get_float P s key x [] in ok (float_cell x', s')
  get_pref s key (double_cell x) = let (x', s') = get_double P s key x [] in ok (double_cell x', s')
  get_pref s key (str_cell t) = let (t', s') = get P s key t [] in ok (str_cell t', s')

  -- setBoolPref, setBytePref, …, setPref. setULongPref calls putInt, so that the number goes through an int.
  unfoldable pub set_pref : Storage P → Text → Cell P → Storage P
  unfolding put put_byte put_int put_float put_double
  set_pref s key (bool_cell b) = put P s key (if b then lit "on" else lit "off")
  set_pref s key (byte_cell n) = put_byte P s key n
  set_pref s key (int_cell i) = put_int P s key i
  set_pref s key (ulong_cell n) = put_int P s key (to_int32 n)
  set_pref s key (float_cell x) = if P.is_nan x then put P s key [] else put_float P s key x
  set_pref s key (double_cell x) =
      if P.double_is_nan x then put P s key [] else put_double P s key x
  set_pref s key (str_cell t) = put P s key t

  -- Without a storage leaf a preference is neither read nor saved.
  unfoldable pub load_pref :
      Option (Storage P) → Text → Cell P → Result (Cell P × Option (Storage P))
  unfolding get_pref
  load_pref none key c = ok (c, none)
  load_pref (some s) key c = get_pref s key c >>= λ r. ok (r.0, some r.1)

  unfoldable pub save_pref : Option (Storage P) → Text → Cell P → Option (Storage P)
  unfolding set_pref
  save_pref none key c = none
  save_pref (some s) key c = some (set_pref s key c)
