-- ===== src/Leaf/Values/Access.antt =====
-- Who may write a registered value (leaf.h: `setValue`).
use stacx.Prelude.{
  Bool, true, false, ◌++◌, ◌∷◌, ◌∙◌, ◌⊎◌, ◌&&◌, ◌||◌, ◌≡◌, ◌↔◌, none, some, inl, inr, arith,
  Bool-cases, ap, sym, Option-cases,
}
use stacx.Prelude.Text.{Text}
use stacx.Platform.{Platform}
use stacx.Fault.{ok, ok-injective}
use stacx.Leaf.Value.{Value, can_set}
use stacx.Leaf.Values.{Values, Hooks, Reply, leaf_key, match_value, assign, set_value}

module _ {P : Platform} (hooks : Hooks P) (s : Values P) where
  -- Past the checks a write is always handled.
  assign-handled :
      (topic key : Text) (val : Value) (payload : Text) (do_save : Bool) (r : Reply P)
      → assign hooks s topic key val payload do_save ≡ ok r
      → r.handled ≡ true
  unfolding assign
  assign-handled topic key val payload do_save r h = ground arith

  module _ (topic payload : Text) (direct allow_save override_perms : Bool) (r : Reply P) where
    -- The registered value that the topic names: the one of that full name or, in a direct message and if there is
    -- none, the one whose name is the topic behind the leaf's name and an underscore.
    abbrev pub IsNamed : Text → Value → Type 0
    IsNamed key val =
        (P.find s.value_descriptions key ≡ some val)
        × ((key ≡ topic)
            ⊎ ((direct ≡ true)
                × (P.find s.value_descriptions topic ≡ none)
                × (key ≡ s.leaf_name ++ b'_' ∷ topic)))

    -- The topic names a value that is settable, or the caller overrides that.
    abbrev pub IsWritable : Type 0
    IsWritable =
        (key : Text) × (val : Value) × IsNamed key val
        × ((can_set val ≡ true) ⊎ (override_perms ≡ true))

    pub match_value-IsNamed :
        (key : Text) (val : Value) → match_value s topic direct ≡ some (key, val) → IsNamed key val
    unfolding match_value
    match_value-IsNamed key val h = elim (Option-cases (P.find s.value_descriptions topic)) [
      | inr (v, full) ↦
          let same : topic ≡ key = ground arith in
          let entry : v ≡ val = ground arith in
          (
            ap (P.find s.value_descriptions) (sym same) ∙ full ∙ ap (λ (w : Value). some w) entry,
            inl (sym same),
          )
      | inl absent ↦ elim (Bool-cases direct) [
        | inr broadcast ↦ absurd (ground arith)
        | inl told ↦ elim (Option-cases (P.find s.value_descriptions (leaf_key s topic))) [
          | inl unknown ↦ absurd (ground arith)
          | inr (v, short) ↦
              let same : leaf_key s topic ≡ key = ground arith in
              let entry : v ≡ val = ground arith in
              (
                ap (P.find s.value_descriptions) (sym same)
                    ∙ short
                    ∙ ap (λ (w : Value). some w) entry,
                inr (told, absent, sym same),
              )
        ]
      ]
    ]

    IsNamed-match_value :
        (key : Text) (val : Value) → IsNamed key val → match_value s topic direct ≡ some (key, val)
    unfolding match_value
    IsNamed-match_value key val (at, inl full) =
        let found : P.find s.value_descriptions topic ≡ some val =
          ap (P.find s.value_descriptions) (sym full) ∙ at in
        simp (match_value, found) (ap (λ k. some (k, val)) (sym full))
    IsNamed-match_value key val (at, inr (told, absent, short)) =
        let found : P.find s.value_descriptions (leaf_key s topic) ≡ some val =
          ap (P.find s.value_descriptions) (sym short) ∙ at in
        simp (match_value, absent, told, found) (ap (λ k. some (k, val)) (sym short))

    -- A write is handled exactly when the topic names a registered value, in full or, in a direct
    -- message and where no value has that full name, without the leaf's name, and that value is settable or
    -- the caller overrides that.
    pub set_value-handled_iff :
        set_value hooks s topic payload direct allow_save override_perms ≡ ok r
        → (r.handled ≡ true) ↔ IsWritable
    unfolding set_value
    set_value-handled_iff h = elim (Option-cases (match_value s topic direct)) [
      | inl absent ↦ (
        λ t. absurd (ground arith),
        λ (key, val, named, may). absurd (ground (arith, IsNamed-match_value key val named)),
      )
      | inr ((key, val), found) ↦ elim (Bool-cases (can_set val || override_perms)) [
        | inl allowed ↦ (
          λ _. (key, val, match_value-IsNamed key val found, ground arith),
          λ _.
              assign-handled topic key val payload (allow_save && val.save) r
                (rw (found, allowed, set_value) at h),
        )
        | inr refused ↦ (
          λ t. absurd (ground arith),
          λ (k, v, named, may).
              let same = ap (λ o. o) (sym found ∙ IsNamed-match_value k v named) in
              absurd (ground (arith, same)),
        )
      ]
    ]

    -- A write that is not handled changes nothing, and leaves the caller's flag alone.
    pub refused_changes_nothing :
        set_value hooks s topic payload direct allow_save override_perms ≡ ok r
        → r.handled ≡ false
        → (r.after ≡ s) × (r.changed ≡ none)
    unfolding set_value
    refused_changes_nothing h no_match = elim (Option-cases (match_value s topic direct)) [
      | inl absent ↦ same (rw (absent, set_value) at h)
      | inr ((key, val), found) ↦ elim (Bool-cases (can_set val || override_perms)) [
        | inl allowed ↦ absurd (
            ground (
              arith,
              assign-handled topic key val payload (allow_save && val.save) r
                  (rw (found, allowed, set_value) at h),
            ))
        | inr refused ↦ same (rw (found, refused, set_value) at h)
      ]
    ]
      where
        same :
            ok (record { handled = false; changed = none; after = s }) ≡ ok r
            → (r.after ≡ s) × (r.changed ≡ none)
        same e = (
          ap (λ (x : Reply P). x.after) (sym (ok-injective e)),
          ap (λ (x : Reply P). x.changed) (sym (ok-injective e)),
        )
