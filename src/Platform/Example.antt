-- ===== src/Platform/Example.antt =====
-- A platform for tests: maps are association lists, and a float is the text that denotes it.
use stacx.Prelude.{refl, [], List, false}
use stacx.Prelude.Text.{Text, text_eq}
use stacx.Platform.{SimpleMap, Floats, Platform}
use stacx.Platform.Assoc.{lookup, insert, without, lookup-insert, lookup-without}

abbrev assoc_map : SimpleMap
assoc_map = record {
  Map = λ V. List (Text × V);
  empty = [];
  find = λ m k. lookup k m;
  put = λ m k v. insert k v m;
  remove = λ m k. without k m;
  entries = λ m. m;
  find-empty = λ j. refl;
  find-put = lookup-insert;
  find-remove = lookup-without;
  find-entries = λ m j. refl;
}

abbrev text_floats : Floats
text_floats = record {
  Float = Text;
  is_nan = λ x. false;
  float_eq = text_eq;
  to_float = λ s. s;
  show_float = λ x. x;
  Double = Text;
  double_is_nan = λ x. false;
  double_eq = text_eq;
  to_double = λ s. s;
  show_double = λ x. x;
}

abbrev pub board : Platform
board = record { maps = assoc_map; floats = text_floats }
