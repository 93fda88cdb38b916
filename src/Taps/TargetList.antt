-- ===== src/Taps/TargetList.antt =====
-- The list of tap targets that `install_taps` of leaf.h parses: a comma-separated list of
-- [type@][alias=]name.
pub mod Laws
use stacx.Prelude.{
  ℕ, zero, suc, ◌+◌, Option, none, some, [], ◌∷◌, List, if◌then◌else◌, drop, ltb, length,
}
use stacx.Prelude.Text.{Text, index_of, substring, not_empty}

pub record Spec : Type 0 where
  pub name : Text
  pub alias : Text
  pub type : Text

-- if ((pos = t.indexOf(c)) > 0): what stands before and after the separator
unfoldable pub split_at : Text → ℕ → Option (Text × Text)
split_at t c = elim (index_of t c) [
  | none ↦ none
  | some pos ↦ if ltb 0 pos then some (substring t 0 pos, drop (pos + 1) t) else none
]

-- The alias and the name of a target without its type.
unfoldable pub parse_alias : Text → Text → Spec
unfolding split_at
parse_alias type t = elim (split_at t b'=') [
  | none ↦ record { name = t; alias = t; type = type }
  | some (alias, name) ↦ record { name = name; alias = alias; type = type }
]

unfoldable pub parse_target : Text → Spec
unfolding parse_alias split_at
parse_target t = elim (split_at t b'@') [
  | none ↦ parse_alias [] t
  | some (type, rest) ↦ parse_alias type rest
]

-- The do-while loop of `install_taps`, with fuel.
unfoldable pub parse_loop : ℕ → Text → List Spec
unfolding split_at parse_target
parse_loop zero t = []
parse_loop (suc fuel) t = elim (split_at t b',') [
  | none ↦ parse_target t ∷ []
  | some (first, rest) ↦
      let more = parse_loop fuel rest in parse_target first ∷ (if not_empty rest then more else [])
]

-- An empty text has no targets. Each round shortens the text, so its length is enough fuel.
unfoldable pub parse_targets : Text → List Spec
unfolding parse_loop
parse_targets t = if not_empty t then parse_loop (suc (length t)) t else []
