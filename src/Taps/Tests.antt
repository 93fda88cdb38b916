-- ===== src/Taps/Tests.antt =====
-- A button that a lamp subscribes to (leaf.h: `install_taps`, `tap`, `find`).
use stacx.Prelude.{◌≡◌, refl, true, some, [], ◌∷◌}
use stacx.Prelude.Text.{lit}
use stacx.Platform.Example.{board}
use stacx.Taps.{Node, Network, find_from, matches, find, tap}
use stacx.Taps.TargetList.{Spec, parse_targets}
use stacx.Taps.TargetList.Laws.{IsPlain, show_targets, parse_targets-show_targets}
use stacx.Taps.Finding.{Answers, find-finds}
use stacx.Taps.Linking.{IsLinked, tap-links}

abbrev button : Node board
button = record {
  leaf_type = lit "button";
  leaf_name = lit "door";
  run = true;
  taps = [];
  tap_sources = [];
}

abbrev lamp : Node board
lamp = record {
  leaf_type = lit "light";
  leaf_name = lit "lamp";
  run = true;
  taps = [];
  tap_sources = [];
}

abbrev house : Network board
house = button ∷ lamp ∷ []

find-finds_example : Answers house (lit "lamp") [] (find house (lit "lamp") [])
find-finds_example = find-finds house (lit "lamp") []

door_found : find house (lit "door") (lit "button") ≡ some 0
unfolding find find_from matches
door_found = refl

tap-links_example : IsLinked (tap house 1 (lit "door") (lit "bell") (lit "button")) 1 (lit "bell") 0
tap-links_example =
    tap-links house 1 lamp (lit "door") (lit "bell") (lit "button") 0 refl door_found

abbrev bell : Spec
bell = record { name = lit "door"; alias = lit "bell"; type = lit "button" }

abbrev clock : Spec
clock = record { name = lit "rtc"; alias = lit "time"; type = [] }

bell-IsPlain : IsPlain bell
bell-IsPlain = record {
  type_at = refl;
  type_comma = refl;
  alias_at = refl;
  alias_comma = refl;
  alias_equals = refl;
  alias_some = λ e. cc;
  name_at = refl;
  name_comma = refl;
}

clock-IsPlain : IsPlain clock
clock-IsPlain = record {
  type_at = refl;
  type_comma = refl;
  alias_at = refl;
  alias_comma = refl;
  alias_equals = refl;
  alias_some = λ e. cc;
  name_at = refl;
  name_comma = refl;
}

parse_targets-show_targets_example :
    parse_targets (show_targets (bell ∷ clock ∷ [])) ≡ bell ∷ clock ∷ []
parse_targets-show_targets_example =
    parse_targets-show_targets (bell ∷ clock ∷ []) (bell-IsPlain, (clock-IsPlain, tt))
