-- ===== src/Leaf/Receive/Returns.antt =====
-- When a leaf answers a message at all (`mqtt_receive` of leaf.h).
use stacx.Prelude.{
  ◌≡◌, refl, Bool, true, false, not, ◌||◌, ◌&&◌, is_some, [], ◌∷◌, ◌++◌, List, if◌then◌else◌,
  Bool-cases, Option-cases, inl, inr, drop,
}
use stacx.Prelude.Text.{Text, lit, text_eq, starts_with}
use stacx.Platform.{Platform}
use stacx.Fault.{Result, ok, ◌>>=◌}
use stacx.Leaf.Value.{Value, as_string, can_get, can_set, has_help}
use stacx.Leaf.Values.{get_value, match_value}
use stacx.Leaf.Values.Soundness.{
  IsSound, AllSound, SoundValues, as_string-returns, set_value-returns, match_value-IsSound,
}
use stacx.Leaf.State.{Leaf}
use stacx.Leaf.Action.{publish, Outcome}
use stacx.Leaf.Help.{Query, skips, value_help, list_values, help, parse_query}
use stacx.Leaf.Receive.{Message, Virtuals, receive, receive_set, receive_get, done}

-- A result that is not a fault.
abbrev pub Returns {ℓ} : {A : Type ℓ} → Result A → Type ℓ
Returns {A} result = (a : A) × (result ≡ ok a)

>>=-Returns {ℓ κ} :
    {A : Type ℓ} {B : Type κ} (result : Result A) (next : A → Result B)
    → Returns result
    → ((a : A) → Returns (next a))
    → Returns (result >>= next)
>>=-Returns result next (a, e) after = rw e (after a)

if-Returns {ℓ} :
    {A : Type ℓ} (b : Bool) (x y : Result A) → Returns x → Returns y → Returns (if b then x else y)
if-Returns true x y hx hy = hx
if-Returns false x y hx hy = hy

module _ {P : Platform} (l : Leaf P) where
  value_help-Returns :
      (name : Text) (v : Value) → IsSound l.memory v → Returns (value_help l name v)
  unfolding value_help
  value_help-Returns name v sound =
      if-Returns (is_some v.value) _ _
        (>>=-Returns (as_string l.memory v) _ (as_string-returns l.memory v sound) (λ t. (_, refl)))
        (_, refl)

  list_values-Returns :
      (q : Query) (wanted : Value → Bool) (prefix : Text) (table : List (Text × Value))
      → AllSound l.memory table
      → Returns (list_values l q wanted prefix table)
  unfolding list_values
  list_values-Returns q wanted prefix [] sound = (_, refl)
  list_values-Returns q wanted prefix ((key, v) ∷ table) sound =
      let rest = list_values-Returns q wanted prefix table sound.1 in
      if-Returns (not (skips q key) && wanted v) _ _
        (>>=-Returns (value_help l key v) _ (value_help-Returns key v sound.0)
          (λ text. >>=-Returns (list_values l q wanted prefix table) _ rest (λ more. (_, refl))))
        rest

  help-Returns :
      (is_help : Bool) (payload : Text) → SoundValues l.values → Returns (help l is_help payload)
  unfolding help
  help-Returns is_help payload sound =
      let q = parse_query is_help payload in
      let values = P.entries l.value_descriptions in
      let settings =
        if-Returns (q.all_kinds || text_eq q.kind (lit "setting")) _ _
          (list_values-Returns q (λ v. q.show_all || has_help v) (lit "help/set/") values sound)
          ([], refl) in
      let by_access =
        if-Returns (text_eq q.kind (lit "set")) _ _
          (list_values-Returns q (λ v. can_set v && has_help v) (lit "help/set/") values sound)
          (if-Returns (text_eq q.kind (lit "get")) _ _
            (list_values-Returns q (λ v. can_get v && has_help v) (lit "help/get/") values sound)
            ([], refl)) in
      >>=-Returns _ _ settings (λ s. >>=-Returns _ _ by_access (λ a. (_, refl)))

  receive_get-Returns : (m : Message) → SoundValues l.values → Returns (receive_get l m)
  unfolding receive_get get_value
  receive_get-Returns m sound =
      let unhandled : Outcome P = record { handled = false; actions = []; after = l } in
      elim (Option-cases (match_value l.values m.topic false)) [
        | inl absent ↦ (unhandled, simp (receive_get, get_value, absent))
        | inr ((key, v), found) ↦ elim (Bool-cases (can_get v)) [
          | inr no_get ↦ (unhandled, simp (receive_get, get_value, found, no_get))
          | inl readable ↦
              let (text, shown) =
                as_string-returns l.memory v
                  (match_value-IsSound l.values m.topic false key v sound found) in
              (
                done l (publish (lit "status/" ++ m.topic) text),
                simp (receive_get, get_value, found, readable, shown),
              )
        ]
      ]

  receive_set-Returns :
      (v : Virtuals P) (m : Message) (direct : Bool)
      → SoundValues l.values
      → Returns (receive_set v l m direct)
  unfolding receive_set
  receive_set-Returns v m direct sound =
      >>=-Returns _ _ (set_value-returns v.hooks l.values m.topic m.payload direct true sound)
        (λ r. (_, refl))

  -- A leaf whose registered values can be used answers every message: nothing that C++ leaves undefined
  -- happens.
  pub receive-Returns :
      (v : Virtuals P) (m : Message) (direct : Bool)
      → SoundValues l.values
      → Returns (receive v l m direct)
  unfolding receive
  receive-Returns v m direct sound =
      let rest : Message = record m { topic = drop 4 m.topic } in
      if-Returns (text_eq m.topic (lit "set/debug_level")) _ _ (_, refl)
        (if-Returns (text_eq m.topic (lit "cmd/help") || text_eq m.topic (lit "cmd/help_all")) _ _
          (>>=-Returns _ _ (help-Returns (text_eq m.topic (lit "cmd/help")) m.payload sound)
            (λ actions. (_, refl)))
          (if-Returns (text_eq m.topic (lit "cmd/config")) _ _ (_, refl)
            (if-Returns (text_eq m.topic (lit "cmd/stats")) _ _ (_, refl)
              (if-Returns (text_eq m.topic (lit "cmd/status") || text_eq m.topic (lit "get/status"))
                _ _ (_, refl)
                (if-Returns (text_eq m.topic (lit "cmd/leafstatus")) _ _ (_, refl)
                  (if-Returns (text_eq m.topic (lit "cmd/taps")) _ _ (_, refl)
                    (if-Returns (starts_with m.topic (lit "cmd/")) _ _ (_, refl)
                      (if-Returns (starts_with m.topic (lit "set/")) _ _
                        (receive_set-Returns v rest direct sound)
                        (if-Returns (starts_with m.topic (lit "get/")) _ _
                          (receive_get-Returns rest sound) (_, refl))))))))))
