-- ===== src/Leaf/Values/Preservation.antt =====
-- The registered values after a write (leaf.h: `setValue`).
use stacx.Prelude.{
  ℕ, ◌≡◌, ◌==◌, refl, sym, ap, ◌∙◌, subst, Bool, true, false, ◌&&◌, none, some, [], ◌∷◌, List,
  if◌then◌else◌, Bool-cases, Option-cases, inl, inr, arith,
}
use stacx.Prelude.Text.{Text}
use stacx.Platform.{Platform}
use stacx.Fault.{Result, ok, ok-injective}
use stacx.Leaf.Value.{
  Value, Kind, Cell, bool_cell, byte_cell, int_cell, ulong_cell, float_cell, double_cell, str_cell,
  bool, byte, int, ulong, float, double, str, Memory, write, can_set, cell_eq,
}
use stacx.Leaf.Prefs.{save_pref}
use stacx.Leaf.Values.{Values, Hooks, Reply, match_value, assign, set_value, parse_cell}
use stacx.Leaf.Values.Persistence.{
  IsOf, is_bool, is_byte, is_int, is_ulong, is_float, is_double, is_str, IsQuiet,
  read_value-pointer, parse_cell-IsOf,
}
use stacx.Leaf.Values.Soundness.{
  IsSound, pointed, delegated, unsettable, AllSound, SoundValues, match_value-IsSound,
}

module _ {P : Platform} where
  kind_of : Cell P → Kind
  kind_of (bool_cell b) = bool
  kind_of (byte_cell n) = byte
  kind_of (int_cell i) = int
  kind_of (ulong_cell n) = ulong
  kind_of (float_cell x) = float
  kind_of (double_cell x) = double
  kind_of (str_cell s) = str

  kind_of-IsOf : {k : Kind} {c : Cell P} → IsOf k c → kind_of c ≡ k
  unfolding kind_of
  kind_of-IsOf (is_bool b) = refl
  kind_of-IsOf (is_byte n) = refl
  kind_of-IsOf (is_int i) = refl
  kind_of-IsOf (is_ulong n) = refl
  kind_of-IsOf (is_float x) = refl
  kind_of-IsOf (is_double x) = refl
  kind_of-IsOf (is_str s) = refl

  -- A write of the same type leaves every variable at its type, also where two share an address.
  IsOf-write :
      (m : Memory P) (a b : ℕ) (new : Cell P) {k k' : Kind}
      → IsOf k (m a)
      → IsOf k new
      → IsOf k' (m b)
      → IsOf k' (write {P = P} m a new b)
  IsOf-write m a b new {k} {k'} old_of new_of other_of = elim (Bool-cases (a == b)) [
    | inr apart ↦ subst (λ c. IsOf k' c) (ground (arith, apart)) other_of
    | inl same ↦
        let one : a ≡ b = ground (arith, same) in
        let kinds : k ≡ k' =
          sym (kind_of-IsOf old_of) ∙ ap (λ i. kind_of (m i)) one ∙ kind_of-IsOf other_of in
        subst (λ c. IsOf k' c) (ground (arith, same)) (subst (λ x. IsOf x new) kinds new_of)
  ]

  AllSound-write :
      (m : Memory P) (a : ℕ) (new : Cell P) {k : Kind} (table : List (Text × Value))
      → IsOf k (m a)
      → IsOf k new
      → AllSound m table
      → AllSound (write {P = P} m a new) table
  AllSound-write m a new [] old_of new_of sound = tt
  AllSound-write m a new ((key, v) ∷ table) old_of new_of ((pointed b at of_kind), rest) = (
    pointed b at (IsOf-write m a b new old_of new_of of_kind),
    AllSound-write m a new table old_of new_of rest,
  )
  AllSound-write m a new ((key, v) ∷ table) old_of new_of ((delegated f at custom), rest) =
      (delegated f at custom, AllSound-write m a new table old_of new_of rest)
  AllSound-write m a new ((key, v) ∷ table) old_of new_of ((unsettable at no_set), rest) =
      (unsettable at no_set, AllSound-write m a new table old_of new_of rest)

  -- The leaf's own setters keep the values usable.
  abbrev pub SoundSetters : Hooks P → Type 0
  SoundSetters hooks =
      (f : ℕ) (s : Values P) (topic : Text) (v : Value) (payload : Text)
      → SoundValues s
      → SoundValues (hooks.setter f s topic v payload).0

  module _ (hooks : Hooks P) (quiet : IsQuiet hooks) (setters : SoundSetters hooks)
      (s : Values P) where
    -- The result of a computation is the one that it was found to have.
    same_result :
        {x : Result (Reply P)} (found r : Reply P)
        → x ≡ ok found
        → x ≡ ok r
        → SoundValues found.after
        → SoundValues r.after
    same_result found r e h sound =
        subst (λ (y : Reply P). SoundValues y.after) (ok-injective (sym e ∙ h)) sound

    assign-SoundValues :
        (topic key payload : Text) (v : Value) (do_save : Bool) (r : Reply P)
        → SoundValues s
        → IsSound s.memory v
        → can_set v ≡ true
        → assign hooks s topic key v payload do_save ≡ ok r
        → SoundValues r.after
    unfolding assign
    assign-SoundValues topic key payload v do_save r sound (delegated f at custom) settable h =
        let found : Reply P = record {
          handled = true;
          changed = none;
          after = (hooks.setter f s topic v payload).0;
        } in
        same_result found r (simp (assign, custom)) h (setters f s topic v payload sound)
    assign-SoundValues topic key payload v do_save r sound (unsettable at no_set) settable h =
        absurd (ground arith)
    assign-SoundValues topic key payload v do_save r sound (pointed a at of_kind) settable h =
        elim (Option-cases v.setter) [
          | inr (f, custom) ↦
              let found : Reply P = record {
                handled = true;
                changed = none;
                after = (hooks.setter f s topic v payload).0;
              } in
              same_result found r (simp (assign, custom)) h (setters f s topic v payload sound)
          | inl plain ↦
              let read = read_value-pointer s.memory v a at of_kind in
              let new = parse_cell hooks payload (s.memory a) in
              elim (Bool-cases (cell_eq new (s.memory a))) [
                | inl same ↦
                    let found : Reply P = record {
                      handled = true;
                      changed = some false;
                      after = s;
                    } in
                    same_result found r (simp (assign, plain, at, read, same)) h sound
                | inr differs ↦
                    let written : Values P = record s {
                      memory = write {P = P} s.memory a new;
                      prefs = if do_save then save_pref s.prefs key new else s.prefs;
                    } in
                    let found : Reply P = record {
                      handled = true;
                      changed = some true;
                      after = hooks.value_change_handler written topic v;
                    } in
                    let kept =
                      AllSound-write s.memory a new (P.entries s.value_descriptions) of_kind
                        (parse_cell-IsOf hooks payload of_kind) sound in
                    same_result found r (simp (assign, plain, at, read, differs)) h
                      (subst (λ x. SoundValues x) (sym (quiet written topic v)) kept)
              ]
        ]

    -- A write keeps the registered values usable, whether it is handled or refused: no variable changes
    -- its type. (The change handler keeps what it is given, and the leaf's setters keep the values
    -- usable.)
    pub set_value-SoundValues :
        (topic payload : Text) (direct allow_save : Bool) (r : Reply P)
        → SoundValues s
        → set_value hooks s topic payload direct allow_save false ≡ ok r
        → SoundValues r.after
    unfolding set_value
    set_value-SoundValues topic payload direct allow_save r sound h =
        elim (Option-cases (match_value s topic direct)) [
          | inl absent ↦
              let e : s ≡ r.after =
                ap (λ (x : Reply P). x.after) (ok-injective (simp (set_value, absent) at h)) in
              subst (λ x. SoundValues x) e sound
          | inr ((key, v), found) ↦ elim (Bool-cases (can_set v)) [
            | inr no_set ↦
                let e : s ≡ r.after =
                  ap (λ (x : Reply P). x.after)
                    (ok-injective (simp (set_value, found, no_set) at h)) in
                subst (λ x. SoundValues x) e sound
            | inl settable ↦
                assign-SoundValues topic key payload v (allow_save && v.save) r sound
                  (match_value-IsSound s topic direct key v sound found) settable
                  (simp (set_value, found, settable) at h)
          ]
        ]
