-- ===== src/Leaf/Values/Persistence.antt =====
-- Writes to a variable, and restarts (leaf.h: `setValue`, `loadValue`).
use stacx.Prelude.{
  ℕ, ◌∙◌, not, arith, Option, Bool, true, false, ◌||◌, ◌&&◌, ◌≡◌, refl, none, some, if◌then◌else◌,
}
use stacx.Prelude.Text.{Text}
use stacx.Prelude.Int.{ℤ}
use stacx.Platform.{Platform}
use stacx.Fault.{ok}
use stacx.Leaf.Prefs.{save_pref}
use stacx.Leaf.Prefs.{load_pref}
use stacx.Leaf.Prefs.Roundtrip.{Storable, SameKind, load_pref-save_pref}
use stacx.Storage.{Storage}
use stacx.Leaf.Value.{
  Kind, Value, Memory, Cell, bool_cell, byte_cell, int_cell, ulong_cell, float_cell, double_cell,
  str_cell, write, typed, read_value, cell_eq, can_set, bool, byte, int, ulong, float, double, str,
}
use stacx.Leaf.Values.{Values, Hooks, match_value, parse_cell, assign, set_value, load_value, Reply}

-- The variable has the type that the value was registered with.
pub data IsOf {P : Platform} : Kind → Cell P → Type 0 where
  is_bool : (b : Bool) → IsOf bool (bool_cell b)
  is_byte : (n : ℕ) → IsOf byte (byte_cell n)
  is_int : (i : ℤ) → IsOf int (int_cell i)
  is_ulong : (n : ℕ) → IsOf ulong (ulong_cell n)
  is_float : (x : P.Float) → IsOf float (float_cell x)
  is_double : (x : P.Double) → IsOf double (double_cell x)
  is_str : (s : Text) → IsOf str (str_cell s)

module _ {P : Platform} where
  pub typed-IsOf : {k : Kind} {c : Cell P} → IsOf k c → typed k c ≡ ok c
  unfolding typed
  typed-IsOf (is_bool b) = refl
  typed-IsOf (is_byte n) = refl
  typed-IsOf (is_int i) = refl
  typed-IsOf (is_ulong n) = refl
  typed-IsOf (is_float x) = refl
  typed-IsOf (is_double x) = refl
  typed-IsOf (is_str s) = refl

  pub read_value-pointer :
      (m : Memory P) (val : Value) (a : ℕ)
      → val.value ≡ some a
      → IsOf val.kind (m a)
      → read_value m val ≡ ok (m a)
  unfolding read_value
  read_value-pointer m val a h of_kind = simp (h, read_value) (typed-IsOf of_kind)

  pub parse_cell-IsOf :
      (hooks : Hooks P) (payload : Text) {k : Kind} {c : Cell P}
      → IsOf k c
      → IsOf k (parse_cell hooks payload c)
  unfolding parse_cell
  parse_cell-IsOf hooks payload (is_bool b) = is_bool _
  parse_cell-IsOf hooks payload (is_byte n) = is_byte _
  parse_cell-IsOf hooks payload (is_int i) = is_int _
  parse_cell-IsOf hooks payload (is_ulong n) = is_ulong _
  parse_cell-IsOf hooks payload (is_float x) = is_float _
  parse_cell-IsOf hooks payload (is_double x) = is_double _
  parse_cell-IsOf hooks payload (is_str s) = is_str _

  IsOf-SameKind : {k : Kind} {c d : Cell P} → IsOf k c → IsOf k d → SameKind c d
  IsOf-SameKind (is_bool b) (is_bool b') = tt
  IsOf-SameKind (is_byte n) (is_byte n') = tt
  IsOf-SameKind (is_int i) (is_int i') = tt
  IsOf-SameKind (is_ulong n) (is_ulong n') = tt
  IsOf-SameKind (is_float x) (is_float x') = tt
  IsOf-SameKind (is_double x) (is_double x') = tt
  IsOf-SameKind (is_str s) (is_str s') = tt

if_same {ℓ} : {A : Type ℓ} (b : Bool) (x : A) → (if b then x else x) ≡ x
if_same true x = refl
if_same false x = refl

write_self : {P : Platform} (m : Memory P) (a : ℕ) (c : Cell P) → write {P = P} m a c a ≡ c
write_self m a c = ground arith

if-ok {ℓ} : {A : Type ℓ} (b : Bool) (x y : A) → (if b then ok x else ok y) ≡ ok (if b then x else y)
if-ok true x y = refl
if-ok false x y = refl

-- A write that passes the checks, to a value with no setter whose variable stands at `a`.
pub record Target {P : Platform} (s : Values P) (topic : Text) (direct override_perms : Bool)
    (key : Text) (val : Value) (a : ℕ) : Type 0 where
  pub found : match_value s topic direct ≡ some (key, val)
  pub allowed : (can_set val || override_perms) ≡ true
  pub plain : val.setter ≡ none
  pub pointer : val.value ≡ some a
  pub of_kind : IsOf val.kind (s.memory a)

module _ {P : Platform} (hooks : Hooks P) (s : Values P) (topic payload : Text)
    (direct allow_save override_perms : Bool) {key : Text} {val : Value} {a : ℕ}
    (t : Target s topic direct override_perms key val a) where
  -- The new content, and the state that the change handler is given.
  abbrev new : Cell P
  new = parse_cell hooks payload (s.memory a)

  abbrev written : Values P
  written = record s {
    memory = write s.memory a new;
    prefs = if allow_save && val.save then save_pref s.prefs key new else s.prefs;
  }

  -- A changed payload is written to the variable, to no other address, and if saving is allowed to
  -- the preferences, under the full name; then the change handler runs. An unchanged payload leaves
  -- everything alone.
  pub set_value-Target :
      set_value hooks s topic payload direct allow_save override_perms
      ≡ ok (
          if cell_eq new (s.memory a)
          then record { handled = true; changed = some false; after = s }
          else record {
            handled = true;
            changed = some true;
            after = hooks.value_change_handler written topic val;
          })
  unfolding set_value assign
  set_value-Target =
      simp
        (
          set_value,
          assign,
          t.found,
          t.allowed,
          t.plain,
          t.pointer,
          read_value-pointer s.memory val a t.pointer t.of_kind,
        )
        (if-ok (cell_eq new (s.memory a)) _ _)

-- The change handler leaves the values alone, as that of a leaf that only acts on its pins does.
abbrev pub IsQuiet : {P : Platform} → Hooks P → Type 0
IsQuiet {P} hooks =
    (s : Values P) (name : Text) (v : Value) → hooks.value_change_handler s name v ≡ s

load_value-plain :
    {P : Platform} (hooks : Hooks P) (s : Values P) (key : Text) (val : Value) (a : ℕ) (c : Cell P)
    (p : Option (Storage P))
    → IsQuiet hooks
    → val.setter ≡ none
    → val.value ≡ some a
    → IsOf val.kind (s.memory a)
    → load_pref s.prefs key (s.memory a) ≡ ok (c, p)
    → load_value hooks s key val
      ≡ ok (record s { memory = write s.memory a c; prefs = p }, not (cell_eq c (s.memory a)))
unfolding load_value
load_value-plain hooks s key val a c p quiet plain pointer of_kind loaded = simp (
  load_value,
  plain,
  pointer,
  read_value-pointer s.memory val a pointer of_kind,
  loaded,
  quiet,
  if_same,
)

-- A write of a new content to a settable value that stands in a variable of its own type, without a
-- setter of its own, and that may be saved, on a leaf that has found its storage, survives a restart:
-- loading it into a fresh memory restores the content that the write left, if a text can carry it. The
-- leaf's change handler keeps what it is given.
pub set_value-survives_restart :
    {P : Platform} (hooks : Hooks P) (s : Values P) (topic payload : Text)
    (direct override_perms : Bool) {key : Text} {val : Value} {a : ℕ} (store : Storage P)
    (fresh : Memory P)
    → IsQuiet hooks
    → Target s topic direct override_perms key val a
    → val.save ≡ true
    → s.prefs ≡ some store
    → Storable (parse_cell hooks payload (s.memory a))
    → cell_eq (parse_cell hooks payload (s.memory a)) (s.memory a) ≡ false
    → IsOf val.kind (fresh a)
    → (r : Reply P) × (restarted : Values P) × (changed : Bool) × (set_value hooks s topic payload
          direct true override_perms
        ≡ ok r)
      × (load_value hooks (record r.after { memory = fresh }) key val ≡ ok (restarted, changed))
      × (restarted.memory a ≡ parse_cell hooks payload (s.memory a))
set_value-survives_restart {P} hooks s topic payload direct override_perms {key} {val} {a} store
      fresh quiet t saves has_store storable differs fresh_kind =
    let new : Cell P = parse_cell hooks payload (s.memory a) in
    let (p, loaded) =
      load_pref-save_pref store key new (fresh a) storable
        (IsOf-SameKind (parse_cell-IsOf hooks payload t.of_kind) fresh_kind) in
    let saved : Values P = record s {
      memory = write s.memory a new;
      prefs = save_pref (some store) key new;
    } in
    let r : Reply P = record { handled = true; changed = some true; after = saved } in
    (
      r,
      record saved { memory = write fresh a new; prefs = p },
      not (cell_eq new (fresh a)),
      set_value-Target hooks s topic payload direct true override_perms t
          ∙ simp (differs, saves, has_store, quiet),
      load_value-plain hooks (record saved { memory = fresh }) key val a new p quiet t.plain
          t.pointer fresh_kind loaded,
      write_self {P = P} fresh a new,
    )
