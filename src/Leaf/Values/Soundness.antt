-- ===== src/Leaf/Values/Soundness.antt =====
-- When the operations on the registered values do what C++ defines (leaf.h: `setValue`, `getValue`,
-- `asString`).
use stacx.Prelude.{
  ℕ, ◌≡◌, sym, ap, ◌∙◌, subst, Bool, true, false, ◌&&◌, none, some, [], ◌∷◌, List, if◌then◌else◌,
  Bool-cases, Option-cases, inl, inr, arith,
}
use stacx.Prelude.Text.{Text, lit, text_eq}
use stacx.Platform.{Platform}
use stacx.Platform.Assoc.{lookup}
use stacx.Fault.{ok}
use stacx.Leaf.Value.{Value, Memory, write, as_string, show_cell, can_set, cell_eq}
use stacx.Leaf.Prefs.{save_pref}
use stacx.Leaf.Values.{Values, Hooks, Reply, match_value, assign, set_value, parse_cell, leaf_key}
use stacx.Leaf.Values.Persistence.{IsOf, typed-IsOf, read_value-pointer}

module _ {P : Platform} where
  -- A registered value that can be used: its variable has the type of its kind; or it has none, and
  -- then a setter, or it is not settable.
  pub data IsSound (m : Memory P) (v : Value) : Type 0 where
    pointed : (a : ℕ) → v.value ≡ some a → IsOf v.kind (m a) → IsSound m v
    delegated : (f : ℕ) → v.value ≡ none → v.setter ≡ some f → IsSound m v
    unsettable : v.value ≡ none → can_set v ≡ false → IsSound m v

  abbrev pub AllSound : Memory P → List (Text × Value) → Type 0
  AllSound m [] = Unit
  AllSound m ((key, v) ∷ table) = IsSound m v × AllSound m table

  -- The values of a leaf can be used.
  abbrev pub SoundValues : Values P → Type 0
  SoundValues s = AllSound s.memory (P.entries s.value_descriptions)

  lookup-IsSound :
      (m : Memory P) (table : List (Text × Value)) (key : Text) (v : Value)
      → AllSound m table
      → lookup key table ≡ some v
      → IsSound m v
  lookup-IsSound m [] key v sound h = absurd (ground arith)
  lookup-IsSound m ((k, w) ∷ table) key v sound h = elim (Bool-cases (text_eq k key)) [
    | inl same ↦ let e : w ≡ v = ground (arith, same, h) in subst (λ x. IsSound m x) e sound.0
    | inr other ↦ lookup-IsSound m table key v sound.1 (ground (arith, other, h))
  ]

  pub find-IsSound :
      (s : Values P) (key : Text) (v : Value)
      → SoundValues s
      → P.find s.value_descriptions key ≡ some v
      → IsSound s.memory v
  find-IsSound s key v sound h =
      lookup-IsSound s.memory (P.entries s.value_descriptions) key v sound
        (sym (P.find-entries s.value_descriptions key) ∙ h)

  pub match_value-IsSound :
      (s : Values P) (topic : Text) (direct : Bool) (key : Text) (v : Value)
      → SoundValues s
      → match_value s topic direct ≡ some (key, v)
      → IsSound s.memory v
  unfolding match_value
  match_value-IsSound s topic direct key v sound h =
      elim (Option-cases (P.find s.value_descriptions topic)) [
        | inr (w, e) ↦
            let same : w ≡ v = ground (arith, simp (match_value, e) at h) in
            find-IsSound s topic v sound (e ∙ ap some same)
        | inl absent ↦ elim (Bool-cases direct) [
          | inr indirect ↦ absurd (ground (arith, simp (match_value, absent, indirect) at h))
          | inl short ↦ elim (Option-cases (P.find s.value_descriptions (leaf_key s topic))) [
            | inl none_too ↦
                absurd (ground (arith, simp (match_value, absent, short, none_too) at h))
            | inr (w, e) ↦
                let same : w ≡ v = ground (arith, simp (match_value, absent, short, e) at h) in
                find-IsSound s (leaf_key s topic) v sound (e ∙ ap some same)
          ]
        ]
      ]

  pub as_string-returns :
      (m : Memory P) (v : Value) → IsSound m v → (t : Text) × (as_string m v ≡ ok t)
  unfolding as_string
  as_string-returns m v (pointed a at of_kind) =
      (show_cell (m a), simp (as_string, at, typed-IsOf of_kind))
  as_string-returns m v (delegated f at setter) = (lit "<UNAVAILABLE>", simp (as_string, at))
  as_string-returns m v (unsettable at no_set) = (lit "<UNAVAILABLE>", simp (as_string, at))

  assign-returns :
      (hooks : Hooks P) (s : Values P) (topic key payload : Text) (v : Value) (do_save : Bool)
      → IsSound s.memory v
      → can_set v ≡ true
      → (r : Reply P) × (assign hooks s topic key v payload do_save ≡ ok r)
  unfolding assign
  assign-returns hooks s topic key payload v do_save (pointed a at of_kind) settable =
      elim (Option-cases v.setter) [
        | inr (f, custom) ↦
            let r : Reply P = record {
              handled = true;
              changed = none;
              after = (hooks.setter f s topic v payload).0;
            } in
            (r, simp (assign, custom))
        | inl plain ↦
            let read = read_value-pointer s.memory v a at of_kind in
            let new = parse_cell hooks payload (s.memory a) in
            elim (Bool-cases (cell_eq new (s.memory a))) [
              | inl same ↦
                  let r : Reply P = record { handled = true; changed = some false; after = s } in
                  (r, simp (assign, plain, at, read, same))
              | inr differs ↦
                  let written : Values P = record s {
                    memory = write {P = P} s.memory a new;
                    prefs = if do_save then save_pref s.prefs key new else s.prefs;
                  } in
                  let r : Reply P = record {
                    handled = true;
                    changed = some true;
                    after = hooks.value_change_handler written topic v;
                  } in
                  (r, simp (assign, plain, at, read, differs))
            ]
      ]
  assign-returns hooks s topic key payload v do_save (delegated f at custom) settable =
      let r : Reply P = record {
        handled = true;
        changed = none;
        after = (hooks.setter f s topic v payload).0;
      } in
      (r, simp (assign, custom))
  assign-returns hooks s topic key payload v do_save (unsettable at no_set) settable =
      absurd (ground arith)

  pub set_value-returns :
      (hooks : Hooks P) (s : Values P) (topic payload : Text) (direct allow_save : Bool)
      → SoundValues s
      → (r : Reply P) × (set_value hooks s topic payload direct allow_save false ≡ ok r)
  unfolding set_value
  set_value-returns hooks s topic payload direct allow_save sound =
      let refused : Reply P = record { handled = false; changed = none; after = s } in
      elim (Option-cases (match_value s topic direct)) [
        | inl absent ↦ (refused, simp (set_value, absent))
        | inr ((key, v), found) ↦ elim (Bool-cases (can_set v)) [
          | inr no_set ↦ (refused, simp (set_value, found, no_set))
          | inl settable ↦
              let (r, returned) =
                assign-returns hooks s topic key payload v (allow_save && v.save)
                  (match_value-IsSound s topic direct key v sound found) settable in
              (r, simp (set_value, found, settable) returned)
        ]
      ]
