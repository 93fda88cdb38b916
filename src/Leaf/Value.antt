-- ===== src/Leaf/Value.antt =====
-- The class `Value` of leaf.h: a registered setting, and the variable that it points to.
use stacx.Prelude.{ℕ, Bool, true, false, Option, none, some, [], ◌∷◌, ◌==◌, if◌then◌else◌, is_some}
use stacx.Prelude.Text.{Text, not_empty, lit, text_eq}
use stacx.Prelude.Int.{ℤ, int_eq}
use stacx.Prelude.Number.{show_nat, show_int}
use stacx.Platform.{Platform}
use stacx.Fault.{Result, ok, fault, wrong_type, null_pointer, ◌>>=◌}
use stacx.Words.{truth}

pub data Kind : Type 0 where
  bool byte int ulong float double str : Kind

pub data Acl : Type 0 where
  get_set get_only set_only : Acl

-- What a variable of the leaf holds.
pub data Cell (P : Platform) : Type 0 where
  bool_cell : Bool → Cell P
  byte_cell : ℕ → Cell P
  int_cell : ℤ → Cell P
  ulong_cell : ℕ → Cell P
  float_cell : P.Float → Cell P
  double_cell : P.Double → Cell P
  str_cell : Text → Cell P

-- `value` is a `void *`: an address, or `none` for NULL. `setter` names a callback.
pub record Value : Type 0 where
  pub kind : Kind
  pub acl : Acl
  pub acl_str : Text
  pub save : Bool
  pub description : Text
  pub default_value : Text
  pub value : Option ℕ
  pub setter : Option ℕ

abbrev pub Memory : Platform → Type 0
Memory P = ℕ → Cell P

abbrev pub write : {P : Platform} → Memory P → ℕ → Cell P → Memory P
write m a c b = if a == b then c else m b

abbrev pub kind_name : Kind → Text
kind_name bool = lit "bool"
kind_name byte = lit "byte"
kind_name int = lit "int"
kind_name ulong = lit "ulong"
kind_name float = lit "float"
kind_name double = lit "double"
kind_name str = lit "string"

unfoldable pub can_set : Value → Bool
can_set v = elim v.acl [ get_set ↦ true | get_only ↦ false | set_only ↦ true ]

unfoldable pub can_get : Value → Bool
can_get v = elim v.acl [ get_set ↦ true | get_only ↦ true | set_only ↦ false ]

abbrev pub has_help : Value → Bool
has_help v = not_empty v.description

unfoldable pub make_acl_str : Value → Value
unfolding can_get can_set
make_acl_str v = record v {
  acl_str =
      (if can_get v then b'r' else b'-')
      ∷ (if can_set v then b'w' else b'-')
      ∷ (if is_some v.value then b'v' else b'-')
      ∷ (if v.save then b's' else b'-')
      ∷ [];
}

unfoldable pub set_auto_save : Value → Bool → Value
unfolding make_acl_str
set_auto_save v autosave = make_acl_str (record v { save = autosave })

module _ {P : Platform} where
  -- VALUE_AS(t, val) at the type of the value's kind; another type is refused.
  unfoldable pub typed : Kind → Cell P → Result (Cell P)
  typed bool (bool_cell b) = ok (bool_cell b)
  typed byte (byte_cell n) = ok (byte_cell n)
  typed int (int_cell i) = ok (int_cell i)
  typed ulong (ulong_cell n) = ok (ulong_cell n)
  typed float (float_cell x) = ok (float_cell x)
  typed double (double_cell x) = ok (double_cell x)
  typed str (str_cell s) = ok (str_cell s)
  typed _ _ = fault wrong_type

  unfoldable pub read_value : Memory P → Value → Result (Cell P)
  unfolding typed
  read_value m v = elim v.value [ none ↦ fault null_pointer | some a ↦ typed v.kind (m a) ]

  unfoldable pub show_cell : Cell P → Text
  show_cell (bool_cell b) = truth b
  show_cell (byte_cell n) = show_nat n
  show_cell (int_cell i) = show_int i
  show_cell (ulong_cell n) = show_nat n
  show_cell (float_cell x) = P.show_float x
  show_cell (double_cell x) = P.show_double x
  show_cell (str_cell s) = s

  unfoldable pub as_string : Memory P → Value → Result Text
  unfolding typed show_cell
  as_string m v = elim v.value [
    | none ↦ ok (lit "<UNAVAILABLE>")
    | some a ↦ (typed v.kind (m a) >>= λ c. ok (show_cell c))
  ]

  -- The operator `!=` of the variable's type, negated.
  unfoldable pub cell_eq : Cell P → Cell P → Bool
  cell_eq (bool_cell true) (bool_cell b) = b
  cell_eq (bool_cell false) (bool_cell true) = false
  cell_eq (bool_cell false) (bool_cell false) = true
  cell_eq (byte_cell a) (byte_cell b) = a == b
  cell_eq (int_cell a) (int_cell b) = int_eq a b
  cell_eq (ulong_cell a) (ulong_cell b) = a == b
  cell_eq (float_cell a) (float_cell b) = P.float_eq a b
  cell_eq (double_cell a) (double_cell b) = P.double_eq a b
  cell_eq (str_cell a) (str_cell b) = text_eq a b
  cell_eq _ _ = false

-- The constructor Value(kind, value, acl, save); `registerValue` fills in the rest.
unfoldable pub new_value : {P : Platform} → Memory P → Kind → Option ℕ → Acl → Bool → Result Value
unfolding make_acl_str as_string
new_value m kind value acl save =
    let v : Value = record {
      kind = kind;
      acl = acl;
      acl_str = [];
      save = save;
      description = [];
      default_value = [];
      value = value;
      setter = none;
    } in
    elim value [
      | none ↦ ok (make_acl_str v)
      | some a ↦ (as_string m v >>= λ text. ok (make_acl_str (record v { default_value = text })))
    ]
