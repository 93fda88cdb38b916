-- ===== src/Leaf/Receive/Wildcards.antt =====
-- Commands registered with a wildcard, such as "append/+" of leaf_fs.h (leaf.h:
-- `wants_topic`, `mqtt_receive`).
use stacx.Prelude.{
  ◌+◌, ◌≡◌, ◌≢◌, refl, ◌∙◌, true, false, ◌||◌, none, some, [], ◌∷◌, ◌++◌, length, arith,
  take-append_length, ltb,
}
use stacx.Prelude.Text.{
  Text, lit, text_eq, starts_with, index_of, Lacks, index_of-append, text_eq-Lacks, substring,
}
use stacx.Platform.{Platform}
use stacx.Leaf.State.{Leaf}
use stacx.Leaf.Command.{has_leader, resolve_command}
use stacx.Leaf.Command.Agreement.{word_after, leader_cut}
use stacx.Leaf.Topic.{wants_topic, wants_command}

positive : (s : Text) → s ≢ [] → ltb 0 (length s) ≡ true
positive [] h = absurd (h refl)
positive (a ∷ s) h = ground arith

module _ {P : Platform} (l : Leaf P) (word arg : Text) (found : Lacks b'/' word) where
  abbrev topic : Text
  topic = word ++ b'/' ∷ arg

  position : index_of topic b'/' ≡ some (length word)
  position = index_of-append word arg b'/' found

  word_cut : substring (lit "cmd/" ++ topic) 4 (4 + length word) ≡ word
  word_cut = word_after l topic (length word) ∙ take-append_length word (b'/' ∷ arg)

  not_wanted :
      P.find l.cmd_descriptions (word ++ lit "/") ≡ none
      → starts_with word l.leaf_name ≡ false
      → wants_command l (lit "cmd/" ++ topic) ≡ false
  unfolding wants_command
  not_wanted plain other = simp (wants_command, position, word_cut, plain, other)

  not_common :
      (text_eq (lit "cmd/" ++ topic) (lit "cmd/status")
          || text_eq (lit "cmd/" ++ topic) (lit "cmd/config")
        ≡ false)
      × (text_eq (lit "cmd/" ++ topic) (lit "cmd/help")
            || text_eq (lit "cmd/" ++ topic) (lit "cmd/help_all")
          ≡ false)
  not_common = ground (
    arith,
    text_eq-Lacks topic (lit "status") b'/' (length word) position refl,
    text_eq-Lacks topic (lit "config") b'/' (length word) position refl,
    text_eq-Lacks topic (lit "help") b'/' (length word) position refl,
    text_eq-Lacks topic (lit "help_all") b'/' (length word) position refl,
  )

  -- A command registered only as "word/+" is refused by the routing test for every argument, though
  -- the message handler would resolve it. (The word is not empty, holds no slash and does not begin
  -- with the leaf's name.)
  pub wildcard_unreachable :
      (d : Text)
      → P.find l.cmd_descriptions (word ++ lit "/") ≡ none
      → P.find l.cmd_descriptions (word ++ lit "/" ++ lit "+") ≡ some d
      → starts_with word l.leaf_name ≡ false
      → word ≢ []
      → (wants_topic l (lit "cmd/" ++ word ++ b'/' ∷ arg) ≡ false)
        × (resolve_command l (word ++ b'/' ∷ arg) ≡ some (word ++ b'/' ∷ arg))
  unfolding wants_topic resolve_command has_leader
  wildcard_unreachable d plain wild other nonempty = (
    simp (wants_topic, not_common.0, not_common.1, not_wanted plain other),
    simp
        (
          resolve_command,
          position,
          leader_cut l topic (length word) position,
          take-append_length word (b'/' ∷ arg),
          has_leader,
        )
        (simp (positive word nonempty, plain, wild)),
  )
