-- ===== src/Leaf/Tests.antt =====
-- A dimmable lamp as a sample leaf, with the theorems of leaf.h applied to it.
use stacx.Prelude.{◌≡◌, refl, Bool, true, false, none, some, [], ◌∷◌, ◌↔◌, zero, suc, arith}
use stacx.Prelude.Text.{lit}
use stacx.Prelude.Int.{pos}
use stacx.Prelude.Number.{to_int, show_int}
use stacx.Platform.Example.{board}
use stacx.Fault.{ok}
use stacx.Words.{parse_bool}
use stacx.Storage.{Storage}
use stacx.Leaf.Value.{
  Value, Memory, write, read_value, cell_eq, int, str, get_set, get_only, int_cell, str_cell,
  can_set,
}
use stacx.Leaf.Prefs.{save_pref}
use stacx.Leaf.Prefs.Roundtrip.{Storable}
use stacx.Leaf.Values.{Values, Hooks, Reply, match_value, set_value, load_value, assign, parse_cell}
use stacx.Leaf.Values.Access.{IsWritable, set_value-handled_iff, refused_changes_nothing}
use stacx.Leaf.Values.Persistence.{Target, is_int, set_value-survives_restart}

abbrev pub quiet : Hooks board
quiet = record {
  setter = λ k s name v payload. (s, false);
  value_change_handler = λ s name v. s;
  parse_bool = λ payload d. (parse_bool payload d).value;
}

abbrev level : Value
level = record {
  kind = int;
  acl = get_set;
  acl_str = lit "rwvs";
  save = true;
  description = lit "brightness";
  default_value = lit "5";
  value = some 0;
  setter = none;
}

abbrev serial : Value
serial = record level { kind = str; acl = get_only; value = some 1 }

abbrev ram : Memory board
ram zero = int_cell (pos 5)
ram (suc n) = str_cell (lit "A17")

abbrev pub flash : Storage board
flash = record { values = []; pref_defaults = []; pref_descriptions = [] }

abbrev pub lamp : Values board
lamp = record {
  leaf_name = lit "lamp";
  leaf_type = lit "light";
  value_descriptions = (lit "lamp_level", level) ∷ (lit "lamp_serial", serial) ∷ [];
  memory = ram;
  prefs = some flash;
}

abbrev pub dimmed : Reply board
dimmed = record {
  handled = true;
  changed = some true;
  after = record lamp {
    memory = write {P = board} ram 0 (int_cell (pos 12));
    prefs = some (record flash { values = (lit "lamp_level", lit "12") ∷ [] });
  };
}

-- A direct message sets the level by its short name.
pub dimmed_runs : set_value quiet lamp (lit "level") (lit "12") true true false ≡ ok dimmed
unfolding set_value assign match_value can_set read_value parse_cell cell_eq save_pref to_int
    show_int
dimmed_runs = refl

abbrev ignored : Reply board
ignored = record { handled = false; changed = none; after = lamp }

-- The serial number is read-only.
ignored_runs : set_value quiet lamp (lit "lamp_serial") (lit "X") false true false ≡ ok ignored
unfolding set_value match_value can_set
ignored_runs = refl

set_value-handled_iff_example :
    (dimmed.handled ≡ true) ↔ IsWritable quiet lamp (lit "level") (lit "12") true true false dimmed
set_value-handled_iff_example =
    set_value-handled_iff quiet lamp (lit "level") (lit "12") true true false dimmed dimmed_runs

refused_changes_nothing_example : (ignored.after ≡ lamp) × (ignored.changed ≡ none)
refused_changes_nothing_example =
    refused_changes_nothing quiet lamp (lit "lamp_serial") (lit "X") false true false ignored
      ignored_runs refl

lamp-Target : Target lamp (lit "level") true false (lit "lamp_level") level 0
unfolding match_value can_set
lamp-Target = record {
  found = refl;
  allowed = refl;
  plain = refl;
  pointer = refl;
  of_kind = is_int (pos 5);
}

abbrev blank : Memory board
blank zero = int_cell (pos 0)
blank (suc n) = str_cell []

lamp-Storable : Storable (parse_cell quiet (lit "12") (int_cell (pos 5)))
unfolding parse_cell to_int
lamp-Storable = omega arith

lamp_differs : cell_eq (parse_cell quiet (lit "12") (int_cell (pos 5))) (int_cell (pos 5)) ≡ false
unfolding parse_cell to_int cell_eq
lamp_differs = refl

set_value-survives_restart_example :
    (r : Reply board) × (restarted : Values board) × (changed : Bool) × (set_value quiet lamp
        (lit "level")
        (lit "12")
        true
        true
        false
      ≡ ok r)
    × (load_value quiet (record r.after { memory = blank }) (lit "lamp_level") level
        ≡ ok (restarted, changed))
    × (restarted.memory 0 ≡ parse_cell quiet (lit "12") (int_cell (pos 5)))
set_value-survives_restart_example =
    set_value-survives_restart quiet lamp (lit "level") (lit "12") true false flash blank
      (λ s name v. refl) lamp-Target refl refl lamp-Storable lamp_differs (is_int (pos 0))
