-- ===== src/Storage/Messages/Roundtrip.antt =====
-- Preferences that are set and read by messages (abstract_storage.h).
use stacx.Prelude.{
  ℕ, ◌≡◌, ◌≢◌, refl, some, [], ◌∷◌, ◌++◌, length-pos, take-append_length, drop-append_past, arith,
  Bool-cases, inl, inr,
}
use stacx.Prelude.Text.{Text, lit, text_eq_refl, not_empty, Lacks, index_of-append, substring_to}
use stacx.Platform.{Platform, find-put_self}
use stacx.Storage.{Storage, get, put, remove}
use stacx.Storage.Messages.{
  Overrides, cut, set_preference, get_preference, set_from_payload, receive, or_empty,
}

cut-append : (a b : Text) (c : ℕ) → Lacks c a → a ≢ [] → cut (a ++ c ∷ b) c ≡ some (a, b)
unfolding cut
cut-append a b c lacks nonempty =
    simp (cut, index_of-append a b c lacks, substring_to, take-append_length, drop-append_past)
      (ground (arith, length-pos a nonempty))

module _ {P : Platform} (o : Overrides P) (s : Storage P) (name value : Text) where
  -- A preference that is set by a message is published by the next message that asks for it, in either
  -- form of the question; one that is set to nothing is published as "[empty]".
  pub receive-get_set :
      ((receive o
          (receive o s (lit "set/pref/" ++ name) value).after
          (lit "get/pref/" ++ name)
          []).published
        ≡ (lit "status/pref/" ++ name, or_empty value) ∷ [])
      × ((receive o
            (receive o s (lit "set/pref/" ++ name) value).after
            (lit "get/pref")
            name).published
          ≡ (lit "status/pref/" ++ name, or_empty value) ∷ [])
  unfolding receive set_preference get_preference get put remove
  receive-get_set = elim (Bool-cases (not_empty value)) [
    | inl some_value ↦ simp (some_value, find-put_self P s.values name value) (refl, refl)
    | inr no_value ↦
        simp (no_value, P.find-remove s.values name name, text_eq_refl name) (refl, refl)
  ]

  -- "set/pref" with the name and the value in the payload does what "set/pref/name" does. (The name
  -- holds no blank and is not empty.)
  pub receive-set_from_payload :
      Lacks b' ' name
      → name ≢ []
      → receive o s (lit "set/pref") (name ++ b' ' ∷ value)
        ≡ receive o s (lit "set/pref/" ++ name) value
  unfolding receive set_from_payload cut
  receive-set_from_payload lacks nonempty =
      simp (set_from_payload, cut-append name value b' ' lacks nonempty)
