-- ===== src/Taps/TargetList/Laws.antt =====
-- The parser of tap targets, and the syntax that it reads (leaf.h: `install_taps`).
use stacx.Prelude.{
  ℕ, ◌==◌, zero, suc, ◌<◌, ◌≤◌, ◌≡◌, ◌≢◌, refl, true, false, none, some, [], ◌∷◌, ◌++◌, List,
  if◌then◌else◌, length, arith, Option-cases, Bool-cases, inl, inr, take-append_length,
  length-append, drop-append_past, length-pos,
}
use stacx.Prelude.Text.{
  Text, index_of, substring_to, not_empty, Lacks, Lacks-append, index_of-append,
  length-drop-index_of,
}
use stacx.Taps.TargetList.{Spec, split_at, parse_alias, parse_target, parse_loop, parse_targets}

-- What `split_at` cuts off is shorter than the text.
split_at-shorter :
    (t : Text) (c : ℕ) (a b : Text) → split_at t c ≡ some (a, b) → length b < length t
unfolding split_at
split_at-shorter t c a b h = elim (Option-cases (index_of t c)) [
  | inl e ↦ absurd (ground arith)
  | inr (k, e) ↦ ground (arith, length-drop-index_of t c k e)
]

-- The loop of `install_taps` ends after at most one round more than the text has characters: any two bounds on its
-- rounds above the length of the text give the same targets.
parse_loop_fuel :
    (f g : ℕ) (t : Text) → length t < f → length t < g → parse_loop f t ≡ parse_loop g t
unfolding parse_loop
parse_loop_fuel zero g t hf hg = absurd (omega arith)
parse_loop_fuel (suc f) zero t hf hg = absurd (omega arith)
parse_loop_fuel (suc f) (suc g) t hf hg = elim (Option-cases (split_at t b',')) [
  | inl e ↦ simp (parse_loop, e)
  | inr ((first, rest), e) ↦
      let shorter = split_at-shorter t b',' first rest e in
      simp (parse_loop, e, parse_loop_fuel f g rest (omega arith) (omega arith))
]

nonempty : (t : Text) → not_empty t ≡ true → t ≢ []
nonempty [] h e = cc
nonempty (a ∷ t) h e = cc

empty : (t : Text) → not_empty t ≡ false → t ≡ []
empty [] h = refl
empty (a ∷ t) h = cc

-- A separator that the first part lacks splits there.
split_at-append : (a b : Text) (c : ℕ) → Lacks c a → a ≢ [] → split_at (a ++ c ∷ b) c ≡ some (a, b)
unfolding split_at
split_at-append a b c lacks nonempty =
    simp (split_at, index_of-append a b c lacks, substring_to, take-append_length, drop-append_past)
      (ground (arith, length-pos a nonempty))

split_at-Lacks : (t : Text) (c : ℕ) → Lacks c t → split_at t c ≡ none
unfolding split_at
split_at-Lacks t c h = simp (split_at, h)

-- The syntax of a target, and of a list of them.
show_target : Spec → Text
show_target s =
    let target = s.alias ++ b'=' ∷ s.name in
    if not_empty s.type then s.type ++ b'@' ∷ target else target

pub show_targets : List Spec → Text
unfolding show_target
show_targets [] = []
show_targets (s ∷ []) = show_target s
show_targets (s ∷ t ∷ specs) = show_target s ++ b',' ∷ show_targets (t ∷ specs)

-- The names of a target hold none of the separators, and the alias is not empty.
pub record IsPlain (s : Spec) : Type 0 where
  pub type_at : Lacks b'@' s.type
  pub type_comma : Lacks b',' s.type
  pub alias_at : Lacks b'@' s.alias
  pub alias_comma : Lacks b',' s.alias
  pub alias_equals : Lacks b'=' s.alias
  pub alias_some : s.alias ≢ []
  pub name_at : Lacks b'@' s.name
  pub name_comma : Lacks b',' s.name

abbrev pub AllPlain : List Spec → Type 0
AllPlain [] = Unit
AllPlain (s ∷ specs) = IsPlain s × AllPlain specs

parse_alias-show :
    (type alias name : Text)
    → Lacks b'=' alias
    → alias ≢ []
    → parse_alias type (alias ++ b'=' ∷ name) ≡ record { name = name; alias = alias; type = type }
unfolding parse_alias
parse_alias-show type alias name lacks nonempty =
    simp (parse_alias, split_at-append alias name b'=' lacks nonempty)

-- A separator other than '=' stands in neither part of "alias=name".
target-Lacks :
    (s : Spec) (c : ℕ)
    → (b'=' == c) ≡ false
    → Lacks c s.alias
    → Lacks c s.name
    → Lacks c (s.alias ++ b'=' ∷ s.name)
target-Lacks s c other alias name = Lacks-append s.alias (b'=' ∷ s.name) c alias (ground arith)

parse_target-show : (s : Spec) → IsPlain s → parse_target (show_target s) ≡ s
unfolding parse_target show_target
parse_target-show s p = elim (Bool-cases (not_empty s.type)) [
  | inl typed ↦ simp (
    show_target,
    typed,
    parse_target,
    split_at-append s.type (s.alias ++ b'=' ∷ s.name) b'@' p.type_at (nonempty s.type typed),
    parse_alias-show s.type s.alias s.name p.alias_equals p.alias_some,
  )
  | inr untyped ↦
      simp
        (
          show_target,
          untyped,
          parse_target,
          split_at-Lacks (s.alias ++ b'=' ∷ s.name) b'@'
              (target-Lacks s b'@' refl p.alias_at p.name_at),
          parse_alias-show [] s.alias s.name p.alias_equals p.alias_some,
        )
        (ground (arith, empty s.type untyped))
]

show_target-Lacks : (s : Spec) → IsPlain s → Lacks b',' (show_target s)
unfolding show_target
show_target-Lacks s p =
    let target = target-Lacks s b',' refl p.alias_comma p.name_comma in
    elim (Bool-cases (not_empty s.type)) [
      | inl typed ↦
          rw (typed, show_target)
            (Lacks-append s.type (b'@' ∷ s.alias ++ b'=' ∷ s.name) b',' p.type_comma
              (ground (arith, target)))
      | inr untyped ↦ rw (untyped, show_target) target
    ]

append-ne-nil : (a : Text) (x : ℕ) (b : Text) → a ++ x ∷ b ≢ []
append-ne-nil [] x b h = cc
append-ne-nil (y ∷ a) x b h = cc

show_target-ne-nil : (s : Spec) → show_target s ≢ []
unfolding show_target
show_target-ne-nil s = elim (Bool-cases (not_empty s.type)) [
  | inl typed ↦ rw (typed, show_target) (append-ne-nil s.type b'@' (s.alias ++ b'=' ∷ s.name))
  | inr untyped ↦ rw (untyped, show_target) (append-ne-nil s.alias b'=' s.name)
]

not_empty-ne-nil : (t : Text) → t ≢ [] → not_empty t ≡ true
not_empty-ne-nil [] h = absurd (h refl)
not_empty-ne-nil (a ∷ t) h = refl

not_empty-append : (a b : Text) → a ≢ [] → not_empty (a ++ b) ≡ true
not_empty-append [] b h = absurd (h refl)
not_empty-append (x ∷ a) b h = refl

not_empty-show_targets :
    (s : Spec) (specs : List Spec) → not_empty (show_targets (s ∷ specs)) ≡ true
unfolding show_targets
not_empty-show_targets s [] = not_empty-ne-nil (show_target s) (show_target-ne-nil s)
not_empty-show_targets s (t ∷ specs) =
    not_empty-append (show_target s) (b',' ∷ show_targets (t ∷ specs)) (show_target-ne-nil s)

length-show_targets : (specs : List Spec) → length specs ≤ suc (length (show_targets specs))
unfolding show_targets
length-show_targets [] = omega arith
length-show_targets (s ∷ []) = omega arith
length-show_targets (s ∷ t ∷ specs) =
    let ih = length-show_targets (t ∷ specs) in
    let some_text = length-pos (show_target s) (show_target-ne-nil s) in
    rw (length-append (show_target s) (b',' ∷ show_targets (t ∷ specs))) (omega arith)

parse_loop-show :
    (specs : List Spec) (fuel : ℕ)
    → AllPlain specs
    → specs ≢ []
    → length specs ≤ fuel
    → parse_loop fuel (show_targets specs) ≡ specs
unfolding parse_loop show_targets
parse_loop-show [] fuel plain some_spec enough = absurd (some_spec refl)
parse_loop-show (s ∷ specs) zero plain some_spec enough = absurd (omega arith)
parse_loop-show (s ∷ []) (suc fuel) plain some_spec enough = simp (
  parse_loop,
  show_targets,
  split_at-Lacks (show_target s) b',' (show_target-Lacks s plain.0),
  parse_target-show s plain.0,
)
parse_loop-show (s ∷ t ∷ specs) (suc fuel) plain some_spec enough =
    let ih = parse_loop-show (t ∷ specs) fuel plain.1 (λ e. cc) (omega arith) in
    simp (
      parse_loop,
      split_at-append (show_target s) (show_targets (t ∷ specs)) b',' (show_target-Lacks s plain.0)
          (show_target-ne-nil s),
      parse_target-show s plain.0,
      not_empty-show_targets t specs,
      ih,
    )

-- A list of targets, also an empty one, that is written out as `type@alias=name,…`, with none of the separators @ and
-- comma inside a name, nor an equals sign inside an alias, and no empty alias, is parsed to that list, in its
-- order; a target without a type has neither type nor @.
pub parse_targets-show_targets :
    (specs : List Spec) → AllPlain specs → parse_targets (show_targets specs) ≡ specs
unfolding parse_targets show_targets
parse_targets-show_targets [] plain = refl
parse_targets-show_targets (s ∷ specs) plain =
    let parsed =
      parse_loop-show (s ∷ specs) (suc (length (show_targets (s ∷ specs)))) plain (λ e. cc)
        (length-show_targets (s ∷ specs)) in
    simp (not_empty-show_targets s specs) parsed
