-- ===== src/Prelude/Text.antt =====
-- Texts as lists of character codes, with the operations of Arduino's `String` that the program
-- uses. A position is an `Option ℕ`: `none` is the -1 of `indexOf`.
use mathlib.Core.Logic.{◌≢◌}
use Prim.Native.Nat.{◌<◌, ℕ, zero, suc, ◌+◌}
use Prim.Native.Char.{code}
use Prim.Native.String.{String}
use mathlib.Core.Path.{◌≡◌, refl}
use mathlib.Core.Logic.{◌↔◌}
use mathlib.Core.Bool.{Bool, true, false, ◌&&◌}
use mathlib.Core.Option
use mathlib.Core.Option.{Option, none, some}
use mathlib.Core.List.{List, [], ◌∷◌, ◌++◌}
use native.Mathlib.Omega.{arith}
use mathlib.Core.Path.{ap}
use mathlib.Core.Logic.{inl, inr}
use stacx.Prelude.Tests.{Bool-cases, ◌==◌, leb, if◌then◌else◌}
use stacx.Prelude.Lists.{length, take, drop}

abbrev pub Text : Type 0
Text = List ℕ

-- A literal.
abbrev pub lit : String → Text
lit String.[] = []
lit (String.◌∷◌ c s) = code c ∷ lit s

-- s.length() > 0
abbrev pub not_empty : Text → Bool
not_empty [] = false
not_empty (c ∷ s) = true

-- a == b
abbrev pub text_eq : Text → Text → Bool
text_eq [] [] = true
text_eq [] (b ∷ t) = false
text_eq (a ∷ s) [] = false
text_eq (a ∷ s) (b ∷ t) = a == b && text_eq s t

-- s.startsWith(prefix)
abbrev pub starts_with : Text → Text → Bool
starts_with s [] = true
starts_with [] (p ∷ prefix) = false
starts_with (a ∷ s) (p ∷ prefix) = a == p && starts_with s prefix

-- s.indexOf(c)
abbrev pub index_of : Text → ℕ → Option ℕ
index_of [] c = none
index_of (a ∷ s) c = if a == c then some 0 else Option.map suc (index_of s c)

-- s.indexOf(c, from)
abbrev pub index_of_from : Text → ℕ → ℕ → Option ℕ
index_of_from s c from = Option.map (λ i. from + i) (index_of (drop from s) c)

-- s.indexOf(sub) >= 0
abbrev pub contains : Text → Text → Bool
contains [] sub = starts_with [] sub
contains (a ∷ s) sub = let later = contains s sub in if starts_with (a ∷ s) sub then true else later

-- s.substring(left, right): the ends are swapped if they come in the wrong order.
abbrev pub substring : Text → ℕ → ℕ → Text
substring s left right =
    if leb left right then drop left (take right s) else drop right (take left s)

-- s.replace(from, to) for single characters
abbrev pub replace_char : Text → ℕ → ℕ → Text
replace_char [] from to = []
replace_char (a ∷ s) from to = (if a == from then to else a) ∷ replace_char s from to

pub text_eq_refl : (s : Text) → text_eq s s ≡ true
text_eq_refl [] = refl
text_eq_refl (a ∷ s) = ground (arith, text_eq_refl s)

pub text_eq_sound : (s t : Text) → text_eq s t ≡ true → s ≡ t
text_eq_sound [] [] h = refl
text_eq_sound [] (b ∷ t) h = ground arith
text_eq_sound (a ∷ s) [] h = ground arith
text_eq_sound (a ∷ s) (b ∷ t) h = ground (arith, text_eq_sound s t)

pub text_eq_iff : (s t : Text) → (text_eq s t ≡ true) ↔ (s ≡ t)
text_eq_iff s t = ground (arith, text_eq_sound s t, text_eq_refl s)

pub starts_with-append : (p s : Text) → starts_with (p ++ s) p ≡ true
starts_with-append [] s = refl
starts_with-append (a ∷ p) s = ground (arith, starts_with-append p s)

-- A text that starts with `p` is `p` and what `remove(0, p.length())` leaves.
pub starts_with-split : (s p : Text) → starts_with s p ≡ true → s ≡ p ++ drop (length p) s
starts_with-split s [] h = refl
starts_with-split [] (b ∷ p) h = ground arith
starts_with-split (a ∷ s) (b ∷ p) h = ground (arith, starts_with-split s p)

-- The separator does not stand in the text.
abbrev pub Lacks : ℕ → Text → Type 0
Lacks c s = index_of s c ≡ none

-- `indexOf` finds the first separator.
pub index_of-append : (s t : Text) (c : ℕ) → Lacks c s → index_of (s ++ c ∷ t) c ≡ some (length s)
index_of-append [] t c h = ground arith
index_of-append (a ∷ s) t c h = ground (arith, index_of-append s t c)

-- Cutting up to and with the separator.
pub take-index_of :
    (s : Text) (c k : ℕ) → index_of s c ≡ some k → take (suc k) s ≡ take k s ++ c ∷ []
take-index_of [] c k h = ground arith
take-index_of (a ∷ s) c zero h = ground (arith, first (index_of s c))
  where
    first : (o : Option ℕ) → Option.map suc o ≢ some 0
    first none e = cc
    first (some n) e = ground arith
take-index_of (a ∷ s) c (suc k) h = ground (arith, take-index_of s c k)

pub starts_with-extend : (s p t : Text) → starts_with s p ≡ true → starts_with (s ++ t) p ≡ true
starts_with-extend s [] t h = refl
starts_with-extend [] (b ∷ p) t h = ground arith
starts_with-extend (a ∷ s) (b ∷ p) t h = ground (arith, starts_with-extend s p t)

-- `remove(0, p.length())` of a text that starts with `p` leaves what follows it alone.
pub drop-starts_with :
    (s p t : Text) → starts_with s p ≡ true → drop (length p) (s ++ t) ≡ drop (length p) s ++ t
drop-starts_with s [] t h = refl
drop-starts_with [] (b ∷ p) t h = ground arith
drop-starts_with (a ∷ s) (b ∷ p) t h = drop-starts_with s p t (ground arith)

pub substring_to : (s : Text) (n : ℕ) → substring s 0 n ≡ take n s
substring_to s n = ground arith

pub index_of-zero : (s : Text) (c : ℕ) → index_of s c ≡ some 0 → starts_with s (c ∷ []) ≡ true
index_of-zero [] c h = ground arith
index_of-zero (a ∷ s) c h = ground (arith, suc_map (index_of s c))
  where
    suc_map : (o : Option ℕ) → Option.map suc o ≢ some 0
    suc_map none e = cc
    suc_map (some n) e = ground arith

-- A text with the separator is not one without.
pub text_eq-Lacks : (s t : Text) (c k : ℕ) → index_of s c ≡ some k → Lacks c t → text_eq s t ≡ false
text_eq-Lacks s t c k h lacks = elim (Bool-cases (text_eq s t)) [
  | inl same ↦ absurd (ground (arith, ap (λ u. index_of u c) (text_eq_sound s t same)))
  | inr other ↦ other
]

-- Without the separator in either part there is none in the whole.
pub Lacks-append : (s t : Text) (c : ℕ) → Lacks c s → Lacks c t → Lacks c (s ++ t)
Lacks-append [] t c hs ht = ht
Lacks-append (a ∷ s) t c hs ht = ground (arith, Lacks-append s t c (Lacks-tail a s c hs) ht)
  where
    none_map : (o : Option ℕ) → Option.map suc o ≡ none → o ≡ none
    none_map none e = refl
    none_map (some j) e = ground arith

    Lacks-tail : (b : ℕ) (u : Text) (d : ℕ) → Lacks d (b ∷ u) → Lacks d u
    Lacks-tail b u d h = elim (Bool-cases (b == d)) [
      | inl same ↦ absurd (ground arith)
      | inr other ↦ none_map (index_of u d) (ground arith)
    ]

pub length-drop-index_of :
    (s : Text) (c k : ℕ) → index_of s c ≡ some k → length (drop (suc k) s) < length s
length-drop-index_of [] c k h = ground arith
length-drop-index_of (a ∷ s) c zero h = omega arith
length-drop-index_of (a ∷ s) c (suc k) h =
    omega (arith, length-drop-index_of s c k (ground (arith, suc_map (index_of s c))))
  where
    suc_map : (o : Option ℕ) → Option.map suc o ≡ some (suc k) → o ≡ some k
    suc_map none e = ground arith
    suc_map (some j) e = ground arith
