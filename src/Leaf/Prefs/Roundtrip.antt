-- ===== src/Leaf/Prefs/Roundtrip.antt =====
-- Writing and reading of preferences (leaf.h, abstract_storage.h).
use stacx.Prelude.{Bool, Option, ℕ, ◌<◌, ◌^◌, ◌≡◌, refl, true, false, [], arith, some, leb, length}
use stacx.Prelude.Text.{Text}
use stacx.Prelude.Int.{ℤ, to_int32}
use stacx.Prelude.Number.{
  show_int, show_nat, IsLong, to_int-show_int, to_int-show_nat, strtoul-to_int32,
  length-show_int-le, not_empty-show_nat, not_empty-show_int,
}
use stacx.Platform.{Platform, find-put_self}
use stacx.Fault.{ok}
use stacx.Storage.{Storage, get, put, get_byte, put_byte, get_int, put_int, get_ulong, remember}
use stacx.Leaf.Value.{
  Cell, bool_cell, byte_cell, int_cell, ulong_cell, float_cell, double_cell, str_cell,
}
use stacx.Leaf.Prefs.{get_pref, set_pref, get_bool_pref, load_pref, save_pref}

module _ {P : Platform} (s : Storage P) (key : Text) where
  get-put : (text d h : Text) → (get P (put P s key text) key d h).0 ≡ text
  unfolding get put
  get-put text d h = rw (find-put_self P s.values key text)

  get_bool_pref-put : (b old : Bool) → (get_bool_pref (set_pref s key (bool_cell b)) key old).0 ≡ b
  unfolding get_bool_pref set_pref
  get_bool_pref-put true old = rw (find-put_self P s.values key)
  get_bool_pref-put false old = rw (find-put_self P s.values key)

  get_byte-put : (n old : ℕ) → n < 256 → (get_byte P (put_byte P s key n) key old []).0 ≡ n
  unfolding get_byte put_byte
  get_byte-put n old h =
      rw (find-put_self P s.values key, not_empty-show_nat n, to_int-show_nat n (omega arith))
        (omega arith)

  get_int-put : (i old : ℤ) → IsLong i → (get_int P (put_int P s key i) key old []).0 ≡ i
  unfolding get_int put_int
  get_int-put i old h =
      rw (find-put_self P s.values key, not_empty-show_int i) (to_int-show_int i h)

  get_ulong-put :
      (n old : ℕ)
      → n < 2 ^ 32
      → get_ulong P (put_int P s key (to_int32 n)) key old []
        ≡ ok (n, remember P (put_int P s key (to_int32 n)) key (show_nat old) [])
  unfolding get_ulong put_int
  get_ulong-put n old h =
      rw (find-put_self P s.values key, not_empty-show_int (to_int32 n), strtoul-to_int32 n h, long)
        refl
    where
      long : leb 32 (length (show_int (to_int32 n))) ≡ false
      long = ground (arith, length-show_int-le n h)

module _ {P : Platform} where
  -- The contents that a text can carry: machine numbers in range, and no floats.
  abbrev pub Storable : Cell P → Type 0
  Storable (bool_cell b) = Unit
  Storable (byte_cell n) = n < 256
  Storable (int_cell i) = IsLong i
  Storable (ulong_cell n) = n < 2 ^ 32
  Storable (float_cell x) = ⊥
  Storable (double_cell x) = ⊥
  Storable (str_cell t) = Unit

  abbrev pub SameKind : Cell P → Cell P → Type 0
  SameKind (bool_cell b) (bool_cell b') = Unit
  SameKind (byte_cell n) (byte_cell n') = Unit
  SameKind (int_cell i) (int_cell i') = Unit
  SameKind (ulong_cell n) (ulong_cell n') = Unit
  SameKind (float_cell x) (float_cell x') = Unit
  SameKind (double_cell x) (double_cell x') = Unit
  SameKind (str_cell t) (str_cell t') = Unit
  SameKind _ _ = ⊥

  pub get_pref-set_pref :
      (s : Storage P) (key : Text) (new old : Cell P)
      → Storable new
      → SameKind new old
      → (s' : Storage P) × (get_pref (set_pref s key new) key old ≡ ok (new, s'))
  unfolding get_pref set_pref
  get_pref-set_pref s key (bool_cell b) (bool_cell b') h k =
      ((get_bool_pref (set_pref s key (bool_cell b)) key b').1, rw (get_bool_pref-put s key b b'))
  get_pref-set_pref s key (byte_cell n) (byte_cell n') h k =
      ((get_byte P (put_byte P s key n) key n' []).1, rw (get_byte-put s key n n' h))
  get_pref-set_pref s key (int_cell i) (int_cell i') h k =
      ((get_int P (put_int P s key i) key i' []).1, rw (get_int-put s key i i' h))
  get_pref-set_pref s key (ulong_cell n) (ulong_cell n') h k = (
    remember P (put_int P s key (to_int32 n)) key (show_nat n') [],
    rw (get_ulong-put s key n n' h),
  )
  get_pref-set_pref s key (str_cell t) (str_cell t') h k =
      ((get P (put P s key t) key t' []).1, rw (get-put s key t t' []))
  get_pref-set_pref s key _ _ h k = absurd (ground arith)

  -- A preference that is saved is loaded back, whatever the variable of its kind held before: a Boolean, a text, or a
  -- byte, an int or an unsigned long that is within the range of its type; floats and doubles are not spoken of.
  pub load_pref-save_pref :
      (s : Storage P) (key : Text) (new old : Cell P)
      → Storable new
      → SameKind new old
      → (p : Option (Storage P)) × (load_pref (save_pref (some s) key new) key old ≡ ok (new, p))
  unfolding load_pref save_pref
  load_pref-save_pref s key new old h k =
      let (s', e) = get_pref-set_pref s key new old h k in (some s', rw e)
