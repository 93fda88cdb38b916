-- ===== src/Platform/Assoc.antt =====
-- Association lists, which show that the interface of `SimpleMap` can be met.
use stacx.Prelude.{◌≡◌, refl, List, [], ◌∷◌, Option, none, some, if◌then◌else◌, arith}
use stacx.Prelude.Text.{Text, text_eq, text_eq_iff}

module _ {V : Type 0} where
  abbrev pub lookup : Text → List (Text × V) → Option V
  lookup k [] = none
  lookup k ((j, v) ∷ m) = if text_eq j k then some v else lookup k m

  abbrev pub insert : Text → V → List (Text × V) → List (Text × V)
  insert k v [] = (k, v) ∷ []
  insert k v ((j, w) ∷ m) = if text_eq j k then (k, v) ∷ m else (j, w) ∷ insert k v m

  abbrev pub without : Text → List (Text × V) → List (Text × V)
  without k [] = []
  without k ((j, w) ∷ m) = let rest = without k m in if text_eq j k then rest else (j, w) ∷ rest

  pub lookup-insert :
      (m : List (Text × V)) (k : Text) (v : V) (j : Text)
      → lookup j (insert k v m) ≡ (if text_eq k j then some v else lookup j m)
  lookup-insert [] k v j = refl
  lookup-insert ((i, w) ∷ m) k v j =
      ground (arith, text_eq_iff i k, text_eq_iff i j, text_eq_iff k j, lookup-insert m k v j)

  pub lookup-without :
      (m : List (Text × V)) (k j : Text)
      → lookup j (without k m) ≡ (if text_eq k j then none else lookup j m)
  lookup-without [] k j = ground arith
  lookup-without ((i, w) ∷ m) k j =
      ground (arith, text_eq_iff i k, text_eq_iff i j, text_eq_iff k j, lookup-without m k j)
