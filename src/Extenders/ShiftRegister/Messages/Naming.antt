-- ===== src/Extenders/ShiftRegister/Messages/Naming.antt =====
-- Pins by their names (leaf_pinextender_74595.h: the constructor, `parse_channel`, `mqtt_receive`).
use stacx.Prelude.{
  take, zero, ◌≤◌, ◌<◌, ◌%◌, ℕ, subst, suc, ◌==◌, ◌≡◌, ◌≢◌, refl, sym, ap, ◌∙◌, Bool, true, false,
  not, some, [], ◌∷◌, ◌++◌, List, length, get_elem?, set, get_elem?-set-some, get_elem?-set_ne,
  get_elem?-lt, if◌then◌else◌, ltb, Bool-cases, inl, inr, arith, drop, take-append_length,
}
use stacx.Prelude.Text.{Text, lit, starts_with, not_empty, Lacks, index_of-append}
use stacx.Prelude.Int.{pos}
use stacx.Fault.{ok}
use stacx.Extenders.ShiftRegister.{make_pins, plain_pins, Pin, Pins, electrical, bit_of, name_pins}
use stacx.Extenders.ShiftRegister.Chip.{Chip, drive_all}
use stacx.Extenders.ShiftRegister.Shifting.{write_pins-outputs}
use stacx.Extenders.ShiftRegister.Messages.{
  Served, shift_receive, change_channel, change_pin, channel, written, shift_status, find_channel,
}

-- The first pin with the name of the pin stands at its place.
abbrev pub IsNamed : Pins → ℕ → Pin → Type 0
IsNamed pins i p = find_channel 0 pins p.name ≡ some i

pub change_channel-ok :
    (pins : Pins) (i : ℕ) (p : Pin) (f : Bool → Bool)
    → get_elem? pins i ≡ some p
    → change_channel pins (pos i) f
      ≡ ok (
          written
            (shift_status (set pins i (record p { value = f p.value })))
            (set pins i (record p { value = f p.value })))
unfolding change_channel change_pin
change_channel-ok pins i p f h =
    let within : ltb i (length pins) ≡ true = ground (arith, get_elem?-lt pins i p h) in
    simp (change_channel, within, change_pin, h)

electrical-not :
    (value invert : Bool)
    → (if invert then not (not value) else not value) ≡ not (if invert then not value else value)
electrical-not value true = refl
electrical-not value false = refl

-- The command "cmd/toggle" with the name of a pin is served, and the output of that pin changes while the
-- other outputs show their pins as before.
pub shift_receive-toggles :
    (C : Chip) (pins : Pins) (s : C.State) (i : ℕ) (p : Pin) (j : ℕ) (q : Pin)
    → get_elem? pins i ≡ some p
    → IsNamed pins i p
    → get_elem? pins j ≡ some q
    → (v : Served) × (shift_receive pins (lit "cmd/toggle") p.name ≡ ok v)
      × (get_elem? (C.outputs (drive_all C v.drives s)) j
          ≡ some (if i == j then not (electrical q) else electrical q))
unfolding shift_receive channel bit_of
shift_receive-toggles C pins s i p j q found named other =
    let new = set pins i (record p { value = not p.value }) in
    let served = written (shift_status new) new in
    (
      served,
      simp (shift_receive, channel, named) (change_channel-ok pins i p not found),
      elim (Bool-cases (i == j)) [
        | inl same ↦
            let e : i ≡ j = ground arith in
            let equal : electrical p ≡ electrical q =
              ap bit_of (sym found ∙ ap (get_elem? pins) e ∙ other) in
            let now : get_elem? new j ≡ some (record p { value = not p.value }) =
              subst (λ k. get_elem? new k ≡ some (record p { value = not p.value })) e
                (get_elem?-set-some pins i (record p { value = not p.value }) p found) in
            simp same (
              write_pins-outputs C new s j (record p { value = not p.value }) now
              ∙ ap some (electrical-not p.value p.invert ∙ ap not equal))
        | inr differ ↦
            let apart : i ≢ j = ground arith in
            simp differ (
              write_pins-outputs C new s j q
                (get_elem?-set_ne pins i j (record p { value = not p.value }) apart ∙ other))
      ],
    )

-- The commands that set and clear a pin.
abbrev pub set_or_clear : Bool → Text
set_or_clear high = if high then lit "cmd/set" else lit "cmd/clear"

pub shift_receive-set_or_clear :
    (pins : Pins) (i : ℕ) (p : Pin) (high : Bool)
    → get_elem? pins i ≡ some p
    → IsNamed pins i p
    → shift_receive pins (set_or_clear high) p.name
      ≡ ok (
          written
            (shift_status (set pins i (record p { value = high })))
            (set pins i (record p { value = high })))
unfolding shift_receive channel
shift_receive-set_or_clear pins i p true found named =
    simp (shift_receive, channel, named) (change_channel-ok pins i p (λ old. true) found)
shift_receive-set_or_clear pins i p false found named =
    simp (shift_receive, channel, named) (change_channel-ok pins i p (λ old. false) found)

-- The text of a list of names, as it is given to the constructor: "a,~b,c".
abbrev pub marked : Bool × Text → Text
marked (inverted, name) = if inverted then b'~' ∷ name else name

abbrev pub show_names : List (Bool × Text) → Text
show_names [] = []
show_names (n ∷ []) = marked n
show_names (n ∷ m ∷ names) = marked n ++ b',' ∷ show_names (m ∷ names)

-- A name that can be given: without a comma, and no ~ at its start.
pub record IsName (n : Bool × Text) : Type 0 where
  pub given : not_empty n.1 ≡ true
  pub no_comma : Lacks (b',') n.1
  pub no_mark : starts_with n.1 (lit "~") ≡ false

pub data AllNames : List (Bool × Text) → Type 0 where
  no_names : AllNames []
  more_names :
      {n : Bool × Text} {names : List (Bool × Text)}
      → IsName n
      → AllNames names
      → AllNames (n ∷ names)

-- The pins with their names and inversions.
abbrev pub names_of : Pins → List (Bool × Text)
names_of [] = []
names_of (p ∷ ps) = (p.invert, p.name) ∷ names_of ps

next_rest : (s rest : Text) → drop (suc (length s)) (s ++ b',' ∷ rest) ≡ rest
next_rest [] rest = refl
next_rest (c ∷ s) rest = next_rest s rest

name_pins-last :
    (p : Pin) (ps : Pins) (n : Bool × Text)
    → IsName n
    → name_pins (p ∷ ps) (marked n) ≡ (record p { invert = n.0; name = n.1 }) ∷ name_pins ps []
unfolding name_pins
name_pins-last p ps (true, name) is_name = simp (is_name.no_comma)
name_pins-last p ps (false, name) is_name = simp (is_name.given, is_name.no_mark, is_name.no_comma)

name_pins-first :
    (p : Pin) (ps : Pins) (n : Bool × Text) (rest : Text)
    → IsName n
    → name_pins (p ∷ ps) (marked n ++ b',' ∷ rest)
      ≡ (record p { invert = n.0; name = n.1 }) ∷ name_pins ps rest
unfolding name_pins
name_pins-first p ps (true, name) rest is_name =
    simp
      (index_of-append name rest (b',') is_name.no_comma, take-append_length, next_rest name rest)
name_pins-first p ps (false, []) rest is_name = absurd (ground (arith, is_name.given))
name_pins-first p ps (false, c ∷ name) rest is_name = simp (
  is_name.no_mark,
  index_of-append (c ∷ name) rest (b',') is_name.no_comma,
  take-append_length,
  next_rest (c ∷ name) rest,
)

length-plain_pins : (i n : ℕ) → length (plain_pins i n) ≡ n
unfolding plain_pins
length-plain_pins i zero = refl
length-plain_pins i (suc n) = ap suc (length-plain_pins (suc i) n)

name_pins-names :
    (ps : Pins) (names : List (Bool × Text))
    → AllNames names
    → length names ≤ length ps
    → take (length names) (names_of (name_pins ps (show_names names))) ≡ names
name_pins-names ps [] all h = refl
name_pins-names [] (n ∷ names) all h = absurd (omega arith)
name_pins-names (p ∷ ps) (n ∷ []) (more_names is_name all) h =
    rw (name_pins-last p ps n is_name) refl
name_pins-names (p ∷ ps) (n ∷ m ∷ names) (more_names is_name all) h =
    rw (name_pins-first p ps n (show_names (m ∷ names)) is_name)
      (ap (λ t. n ∷ t) (name_pins-names ps (m ∷ names) all (omega arith)))

-- A leaf of fewer than 256 pins that is made with a text of at most as many names, each of which is not empty and has
-- no comma and no leading ~, gives its first pins these names, and inverts those that are marked by a ~.
pub make_pins-show_names :
    (npins : ℕ) (names : List (Bool × Text))
    → npins < 256
    → AllNames names
    → length names ≤ npins
    → take (length names) (names_of (make_pins npins (show_names names))) ≡ names
unfolding make_pins
make_pins-show_names npins names small all few =
    let size : npins % 256 ≡ npins = omega arith in
    rw size
      (name_pins-names (plain_pins 0 npins) names all (omega (arith, length-plain_pins 0 npins)))
