-- ===== src/Taps/Finding.antt =====
-- What the lookups in the table `leaves` find (leaf.h: `find`, `find_type`, `get_leaf…`).
use stacx.Prelude.{
  ℕ, zero, suc, ◌+◌, ◌<◌, ◌≡◌, refl, sym, ap, ◌∙◌, Bool, true, false, not, ◌||◌, ◌⊎◌, Option, none,
  some, [], ◌∷◌, List, get_elem?, arith, Bool-cases, inl, inr,
}
use stacx.Prelude.Text.{Text, not_empty, text_eq, text_eq_sound, text_eq_iff}
use stacx.Platform.{Platform}
use stacx.Taps.{Network, Node, find_from, matches, find}

module _ {ℓ} {A : Type ℓ} where
  -- The entry at `k` is the first one that passes the test.
  pub record IsFirst (test : A → Bool) (xs : List A) (k : ℕ) : Type ℓ where
    pub found : A
    pub here : get_elem? xs k ≡ some found
    pub passes : test found ≡ true
    pub others_fail : (j : ℕ) (y : A) → j < k → get_elem? xs j ≡ some y → test y ≡ false

  -- No entry passes the test.
  abbrev pub NoneOf : (A → Bool) → List A → Type ℓ
  NoneOf test xs = (j : ℕ) (y : A) → get_elem? xs j ≡ some y → test y ≡ false

  -- What an optional position says about the table from index `i` on.
  abbrev pub FindsFirst : (A → Bool) → ℕ → List A → Option ℕ → Type ℓ
  FindsFirst test i xs result = elim result [
    | none ↦ NoneOf test xs
    | some k ↦ (j : ℕ) × (k ≡ i + j) × IsFirst test xs j
  ]

  NoneOf-cons :
      (test : A → Bool) (x : A) (xs : List A) (j : ℕ) (y : A)
      → test x ≡ false
      → NoneOf test xs
      → get_elem? (x ∷ xs) j ≡ some y
      → test y ≡ false
  NoneOf-cons test x xs zero y fails rest h = ground arith
  NoneOf-cons test x xs (suc j) y fails rest h = rest j y h

  others-cons :
      (test : A → Bool) (x : A) (xs : List A) (k : ℕ) (j : ℕ) (y : A)
      → test x ≡ false
      → IsFirst test xs k
      → j < suc k
      → get_elem? (x ∷ xs) j ≡ some y
      → test y ≡ false
  others-cons test x xs k zero y fails p lt h = ground arith
  others-cons test x xs k (suc j) y fails p lt h = p.others_fail j y (omega arith) h

  IsFirst-cons :
      (test : A → Bool) (x : A) (xs : List A) (k : ℕ)
      → test x ≡ false
      → IsFirst test xs k
      → IsFirst test (x ∷ xs) (suc k)
  IsFirst-cons test x xs k fails p = record {
    found = p.found;
    here = p.here;
    passes = p.passes;
    others_fail = λ j y lt h. others-cons test x xs k j y fails p lt h;
  }

  cons-finds :
      (test : A → Bool) (i : ℕ) (x : A) (xs : List A) (r : Option ℕ)
      → test x ≡ false
      → FindsFirst test (suc i) xs r
      → FindsFirst test i (x ∷ xs) r
  cons-finds test i x xs none fails rest = λ j y h. NoneOf-cons test x xs j y fails rest h
  cons-finds test i x xs (some k) fails (j, e, p) =
      (suc j, omega arith, IsFirst-cons test x xs j fails p)

  find_from-finds :
      (test : A → Bool) (i : ℕ) (xs : List A) → FindsFirst test i xs (find_from test i xs)
  unfolding find_from
  find_from-finds test i [] = λ j y h. absurd (ground arith)
  find_from-finds test i (x ∷ xs) = elim (Bool-cases (test x)) [
    | inl passed ↦ rw passed (
        let first : IsFirst test (x ∷ xs) 0 = record {
          found = x;
          here = refl;
          passes = passed;
          others_fail = λ j y lt h. absurd (omega arith);
        } in
        (0, omega arith, first))
    | inr failed ↦ rw failed (
        cons-finds test i x xs (find_from test (suc i) xs) failed (find_from-finds test (suc i) xs))
  ]

-- What is asked for: a name and a type, of which an empty one stands for any.
abbrev pub IsAsked : {P : Platform} → Text → Text → Node P → Type 0
IsAsked name type n = ((name ≡ []) ⊎ (n.leaf_name ≡ name)) × ((type ≡ []) ⊎ (n.leaf_type ≡ type))

asked_text : (asked is : Text) → Bool
asked_text asked is = not (not_empty asked) || text_eq is asked

asked_text_sound : (asked is : Text) → asked_text asked is ≡ true → (asked ≡ []) ⊎ (is ≡ asked)
unfolding asked_text
asked_text_sound [] is h = inl refl
asked_text_sound (a ∷ asked) is h = inr (text_eq_sound is (a ∷ asked) h)

asked_text_complete : (asked is : Text) → (asked ≡ []) ⊎ (is ≡ asked) → asked_text asked is ≡ true
unfolding asked_text
asked_text_complete [] is h = refl
asked_text_complete (a ∷ asked) is (inl blank) = absurd (cc)
asked_text_complete (a ∷ asked) is (inr same) = (text_eq_iff is (a ∷ asked)).1 same

module _ {P : Platform} (name type : Text) (n : Node P) where
  matches_sound : matches name type n ≡ true → IsAsked name type n
  unfolding matches asked_text
  matches_sound h = (
    asked_text_sound name n.leaf_name (ground arith),
    asked_text_sound type n.leaf_type (ground arith),
  )

  matches_complete : IsAsked name type n → matches name type n ≡ true
  unfolding matches asked_text
  matches_complete (by_name, by_type) =
      let named = asked_text_complete name n.leaf_name by_name in
      let typed = asked_text_complete type n.leaf_type by_type in ground arith

-- What a lookup for a name and a type is to answer.
abbrev pub Answers : {P : Platform} → Network P → Text → Text → Option ℕ → Type 0
Answers {P} net name type none =
    (j : ℕ) (n : Node P) → get_elem? net j ≡ some n → IsAsked name type n → ⊥
Answers {P} net name type (some k) =
    (n : Node P) × (get_elem? net k ≡ some n)
    × IsAsked name type n
    × ((j : ℕ) (y : Node P) → j < k → get_elem? net j ≡ some y → IsAsked name type y → ⊥)

FindsFirst-Answers :
    {P : Platform} (net : Network P) (name type : Text) (r : Option ℕ)
    → FindsFirst (matches name type) 0 net r
    → Answers net name type r
FindsFirst-Answers net name type none h =
    λ j n at asked. absurd (ground (arith, h j n at, matches_complete name type n asked))
FindsFirst-Answers net name type (some k) (j, same, first) =
    let e : j ≡ k = omega arith in
    (
      first.found,
      ap (get_elem? net) (sym e) ∙ first.here,
      matches_sound name type first.found first.passes,
      λ i y lt at asked. absurd (
          ground
            (arith, first.others_fail i y (omega arith) at, matches_complete name type y asked)),
    )

-- `find` returns the position of the first leaf that has the name and the type that are asked for, where an empty
-- name or type stands for any; it returns nothing only when no leaf of the table has them.
pub find-finds :
    {P : Platform} (net : Network P) (name type : Text) → Answers net name type (find net name type)
unfolding find
find-finds net name type =
    FindsFirst-Answers net name type (find net name type)
      (find_from-finds (matches name type) 0 net)
