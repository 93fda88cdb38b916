-- ===== src/Leaf/Receive/Wanted.antt =====
-- Topics as `wants_topic` and as `mqtt_receive` of leaf.h see them.
use stacx.Prelude.{
  ◌||◌, [], ◌≡◌, sym, refl, ap, ◌∙◌, Bool, true, false, ◌⊎◌, inl, inr, some, ◌++◌, if◌then◌else◌,
  drop, arith, Option-cases,
}
use stacx.Prelude.Text.{Text, lit, text_eq, starts_with, starts_with-split}
use stacx.Platform.{Platform}
use stacx.Fault.{ok, >>=-eq-ok, ok-injective}
use stacx.Leaf.Value.{Value, can_get, can_set, as_string}
use stacx.Leaf.Values.{match_value, set_value, get_value}
use stacx.Leaf.Values.Access.{match_value-IsNamed, set_value-handled_iff}
use stacx.Leaf.State.{Leaf}
use stacx.Leaf.Action.{Outcome}
use stacx.Leaf.Topic.{wants_topic, wants_command, wants_value}
use stacx.Leaf.Help.{help}
use stacx.Leaf.Command.{resolve_command}
use stacx.Leaf.Command.Agreement.{wants_command-resolve_command}
use stacx.Leaf.Receive.{Message, Virtuals, receive, receive_command, receive_set, receive_get}

-- Which branch was taken, and what it gave.
pub if_cases {ℓ} :
    {A : Type ℓ} (b : Bool) {x y r : A}
    → (if b then x else y) ≡ r
    → ((b ≡ true) × (x ≡ r)) ⊎ ((b ≡ false) × (y ≡ r))
if_cases true h = inl (refl, h)
if_cases false h = inr (refl, h)

module _ {P : Platform} (v : Virtuals P) (l : Leaf P) (m : Message) (direct : Bool) where
  abbrev rest : Message
  rest = record m { topic = drop 4 m.topic }

  -- The command handler is asked.
  abbrev pub IsHandlers : Outcome P → Type 0
  IsHandlers o = (topic : Text) × (v.command_handler l (record m { topic = topic }) ≡ o)

  wanted_value :
      (short : Bool)
      → wants_value l m.topic ≡ true
      → (val : Value) × (match_value l.values rest.topic short ≡ some (rest.topic, val))
        × (starts_with m.topic (lit "set/") ≡ true → can_set val ≡ true)
        × (starts_with m.topic (lit "set/") ≡ false → can_get val ≡ true)
  unfolding wants_value match_value
  wanted_value short wanted = elim (Option-cases (P.find l.value_descriptions rest.topic)) [
    | inl e ↦ absurd (ground arith)
    | inr (val, e) ↦ (val, simp (match_value, e), ground arith, ground arith)
  ]

  receive_command-IsHandlers :
      starts_with m.topic (lit "cmd/") ≡ true
      → starts_with m.topic (lit "cmd//") ≡ false
      → wants_command l m.topic ≡ true
      → IsHandlers (receive_command v l rest)
  unfolding receive_command
  receive_command-IsHandlers cmd slash wanted = elim (Option-cases (resolve_command l rest.topic)) [
    | inl e ↦
        let split : m.topic ≡ lit "cmd/" ++ rest.topic =
          starts_with-split m.topic (lit "cmd/") cmd in
        let found =
          wants_command-resolve_command l rest.topic (rw split at slash) (rw split at wanted) in
        absurd (ground (arith, found))
    | inr (topic, e) ↦ (topic, simp (receive_command, e))
  ]

  receive_set-handled :
      (o : Outcome P)
      → starts_with m.topic (lit "set/") ≡ true
      → wants_value l m.topic ≡ true
      → receive_set v l rest direct ≡ ok o
      → o.handled ≡ true
  unfolding receive_set
  receive_set-handled o set wanted h =
      let (val, found, settable, _) = wanted_value direct wanted in
      let (r, replied, e) =
        >>=-eq-ok (set_value v.hooks l.values rest.topic m.payload direct true false) _ h in
      let iff =
        set_value-handled_iff v.hooks l.values rest.topic m.payload direct true false r replied in
      ap (λ (x : Outcome P). x.handled) (sym (ok-injective e))
      ∙ iff.1 (
        rest.topic,
        val,
        match_value-IsNamed v.hooks l.values rest.topic m.payload direct true false r rest.topic val
            found,
        inl (settable set),
      )

  receive_get-handled :
      (o : Outcome P)
      → starts_with m.topic (lit "set/") ≡ false
      → wants_value l m.topic ≡ true
      → receive_get l rest ≡ ok o
      → o.handled ≡ true
  unfolding receive_get get_value
  receive_get-handled o set wanted h =
      let (val, found, _, readable) = wanted_value false wanted in
      let (text, shown, e) =
        >>=-eq-ok (as_string l.memory val) _
          (simp (receive_get, get_value, found, readable set) at h) in
      ap (λ (x : Outcome P). x.handled) (sym (ok-injective e))

  -- The topics that every leaf answers itself.
  record NotCommon : Type 0 where
    no_help : text_eq m.topic (lit "cmd/help") || text_eq m.topic (lit "cmd/help_all") ≡ false
    no_config : text_eq m.topic (lit "cmd/config") ≡ false
    no_status : text_eq m.topic (lit "cmd/status") || text_eq m.topic (lit "get/status") ≡ false

  -- What is left of the test once those are excluded.
  wants_topic-NotCommon :
      NotCommon
      → wants_topic l m.topic ≡ (
          if starts_with m.topic (lit "cmd/")
          then wants_command l m.topic
          else if starts_with m.topic (lit "get/") || starts_with m.topic (lit "set/")
          then wants_value l m.topic
          else false)
  unfolding wants_topic
  wants_topic-NotCommon c = ground (arith, c.no_help, c.no_config, c.no_status)

  handled_of : {x o : Outcome P} → ok x ≡ ok o → x.handled ≡ true → o.handled ≡ true
  handled_of e h = ap (λ (y : Outcome P). y.handled) (sym (ok-injective e)) ∙ h

  -- The last four branches of `mqtt_receive`.
  prefixes_handled :
      (o : Outcome P)
      → NotCommon
      → wants_topic l m.topic ≡ true
      → starts_with m.topic (lit "cmd//") ≡ false
      → (if starts_with m.topic (lit "cmd/")
          then ok (receive_command v l rest)
          else if starts_with m.topic (lit "set/")
          then receive_set v l rest direct
          else if starts_with m.topic (lit "get/")
          then receive_get l rest
          else ok (record { handled = false; actions = []; after = l }))
        ≡ ok o
      → (o.handled ≡ true) ⊎ IsHandlers o
  prefixes_handled o c wanted no_slash h =
      let w = sym (wants_topic-NotCommon c) ∙ wanted in
      elim (if_cases (starts_with m.topic (lit "cmd/")) h) [
        | inl (cmd, e) ↦
            let (topic, asked) = receive_command-IsHandlers cmd no_slash (rw cmd at w) in
            inr (topic, asked ∙ ok-injective e)
        | inr (no_cmd, e) ↦
            let w' = rw no_cmd at w in
            elim (if_cases (starts_with m.topic (lit "set/")) e) [
              | inl (set, e') ↦ inl (receive_set-handled o set (ground arith) e')
              | inr (no_set, e') ↦ elim (if_cases (starts_with m.topic (lit "get/")) e') [
                | inl (get, e'') ↦ inl (receive_get-handled o no_set (ground arith) e'')
                | inr (no_get, e'') ↦ absurd (ground arith)
              ]
            ]
      ]

  -- A leaf handles every message whose topic it wants, or hands it to its command handler, which may
  -- decline. (In a command topic the first word is not empty.)
  pub wanted_is_handled :
      (o : Outcome P)
      → wants_topic l m.topic ≡ true
      → starts_with m.topic (lit "cmd//") ≡ false
      → receive v l m direct ≡ ok o
      → (o.handled ≡ true) ⊎ IsHandlers o
  unfolding receive
  wanted_is_handled o wanted no_slash h =
      elim (if_cases (text_eq m.topic (lit "set/debug_level")) h) [
        | inl (_, e) ↦ inl (handled_of e refl)
        | inr (_, h1) ↦
            elim (if_cases
              (text_eq m.topic (lit "cmd/help") || text_eq m.topic (lit "cmd/help_all")) h1) [
                | inl (_, e) ↦
                    let (actions, _, e') =
                      >>=-eq-ok (help l (text_eq m.topic (lit "cmd/help")) m.payload) _ e in
                    inl (handled_of e' refl)
                | inr (no_help, h2) ↦ elim (if_cases (text_eq m.topic (lit "cmd/config")) h2) [
                  | inl (_, e) ↦ inl (handled_of e refl)
                  | inr (no_config, h3) ↦ elim (if_cases (text_eq m.topic (lit "cmd/stats")) h3) [
                    | inl (_, e) ↦ inl (handled_of e refl)
                    | inr (_, h4) ↦
                        elim (if_cases
                          (text_eq m.topic (lit "cmd/status") || text_eq m.topic (lit "get/status"))
                          h4) [
                            | inl (_, e) ↦ inl (handled_of e refl)
                            | inr (no_status, h5) ↦
                                elim (if_cases (text_eq m.topic (lit "cmd/leafstatus")) h5) [
                                  | inl (_, e) ↦ inl (handled_of e refl)
                                  | inr (_, h6) ↦
                                      elim (if_cases (text_eq m.topic (lit "cmd/taps")) h6) [
                                        | inl (_, e) ↦ inl (handled_of e refl)
                                        | inr (_, h7) ↦
                                            prefixes_handled o
                                              (record {
                                                no_help = no_help;
                                                no_config = no_config;
                                                no_status = no_status;
                                              })
                                              wanted no_slash h7
                                      ]
                                ]
                          ]
                  ]
                ]
              ]
      ]
