-- ===== src/Leaf/Command/Agreement.antt =====
-- Commands as `wants_topic` and as `mqtt_receive` of leaf.h see them.
use stacx.Prelude.{
  ℕ, ◌∙◌, suc, ◌+◌, ◌≡◌, true, false, ◌||◌, ◌&&◌, some, ◌++◌, length, take, drop, is_some, arith,
  Option-cases, inl, inr, length-append, zero,
}
use stacx.Prelude.Text.{
  Text, lit, starts_with, index_of, substring, substring_to, index_of-zero, take-index_of,
  starts_with-extend, drop-starts_with,
}
use stacx.Platform.{Platform, has}
use stacx.Leaf.State.{Leaf}
use stacx.Leaf.Command.{has_leader, has_leaf_leader, resolve_exact, resolve_command}
use stacx.Leaf.Topic.{wants_command}

module _ {P : Platform} (l : Leaf P) where
  prefix_length : length (l.leaf_name ++ lit "_") ≡ length l.leaf_name + 1
  prefix_length = length-append l.leaf_name (lit "_")

  resolve_exact-some :
      (word : Text)
      → (has P l.cmd_descriptions word
          || (starts_with word l.leaf_name
              && (starts_with word (l.leaf_name ++ lit "_")
                  && has P l.leaf_cmd_descriptions (drop (length (l.leaf_name ++ lit "_")) word))))
        ≡ true
      → is_some (resolve_exact l word) ≡ true
  unfolding resolve_exact
  resolve_exact-some word h = let h' = rw prefix_length at h in ground arith

  has_leader-wanted :
      (word : Text)
      → (has P l.cmd_descriptions (word ++ lit "/")
          || (starts_with word l.leaf_name
              && (starts_with word (l.leaf_name ++ lit "_")
                  && has P l.leaf_cmd_descriptions
                      (drop (length (l.leaf_name ++ lit "_")) word ++ lit "/"))))
        ≡ true
      → (has_leader l (word ++ lit "/") || has_leaf_leader l (word ++ lit "/")) ≡ true
  unfolding has_leader has_leaf_leader
  has_leader-wanted word h = ground (
    arith,
    rw prefix_length at h,
    starts_with-extend word (l.leaf_name ++ lit "_") (lit "/"),
    rw prefix_length at (drop-starts_with word (l.leaf_name ++ lit "_") (lit "/")),
  )

  -- The word that `wants_topic` cuts out behind "cmd/".
  pub word_after : (topic : Text) (n : ℕ) → substring (lit "cmd/" ++ topic) 4 (4 + n) ≡ take n topic
  word_after topic n = let e : 4 + n ≡ suc (suc (suc (suc n))) = omega arith in rw e (ground arith)

  -- The word that `mqtt_receive` cuts out, with its slash.
  pub leader_cut :
      (topic : Text) (k : ℕ)
      → index_of topic b'/' ≡ some k
      → substring topic 0 (k + 1) ≡ take k topic ++ lit "/"
  leader_cut topic k found =
      let e : k + 1 ≡ suc k = omega arith in
      substring_to topic (k + 1) ∙ rw e (take-index_of topic b'/' k found)

  -- A command topic that the leaf wants, with no empty word before its second slash, is resolved to
  -- a registered command.
  pub wants_command-resolve_command :
      (topic : Text)
      → starts_with topic (lit "/") ≡ false
      → wants_command l (lit "cmd/" ++ topic) ≡ true
      → is_some (resolve_command l topic) ≡ true
  unfolding wants_command resolve_command
  wants_command-resolve_command topic no_slash h = elim (Option-cases (index_of topic b'/')) [
    | inl simple ↦
        simp (resolve_command, simple)
          (resolve_exact-some topic (simp (wants_command, simple) at h))
    | inr (zero, found) ↦ absurd (ground (arith, index_of-zero topic b'/' found))
    | inr (suc k, found) ↦
        let word : Text = take (suc k) topic in
        let leader = has_leader-wanted word (simp (wants_command, found, word_after, drop) at h) in
        simp (resolve_command, found, leader_cut topic (suc k) found) (ground (arith, leader))
  ]
