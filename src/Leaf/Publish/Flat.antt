-- ===== src/Leaf/Publish/Flat.antt =====
-- Flat topics: `mqtt_publish` of leaf.h writes them and `_mqtt_route` of abstract_pubsub.h reads them.
use stacx.Prelude.{
  ℕ, suc, ◌≡◌, refl, true, false, Option, none, some, [], ◌∷◌, drop-append_length, arith,
}
use stacx.Prelude.Text.{Text, lit, index_of, starts_with, starts_with-append, replace_char, Lacks}
use mathlib.Core.Option
use stacx.Platform.{Platform}
use stacx.Leaf.State.{Leaf}
use stacx.Leaf.Publish.{flat_topic}
use stacx.Pubsub.Address.{Plain, plain_topic}

unflatten : (t : Text) → Lacks b'-' t → replace_char (replace_char t b'/' b'-') b'-' b'/' ≡ t
unflatten [] lacks = refl
unflatten (a ∷ t) lacks = ground (arith, unflatten t, lacks_tail (index_of t b'-'))
  where
    lacks_tail : (o : Option ℕ) → Option.map suc o ≡ none → o ≡ none
    lacks_tail none e = refl
    lacks_tail (some n) e = absurd (ground arith)

no_slash : (t : Text) → starts_with (replace_char t b'/' b'-') (lit "/") ≡ false
no_slash [] = refl
no_slash (a ∷ t) = ground arith

-- The topic that a leaf sends to the broker for a flat topic is read back as the topic that was
-- published, by a router with the leaf's base topic, no priority and flat topics, if it has no dash.
pub plain_topic-flat_topic :
    {P : Platform} (l : Leaf P) (topic : Text) (p : Plain)
    → p.base_topic ≡ l.base_topic
    → p.has_priority ≡ false
    → p.use_flat_topic ≡ true
    → Lacks b'-' topic
    → plain_topic p (flat_topic l topic) ≡ topic
unfolding plain_topic
plain_topic-flat_topic l topic p same no_priority flat lacks =
    let t = replace_char topic b'/' b'-' in
    simp
      (
        plain_topic,
        same,
        no_priority,
        flat,
        starts_with-append l.base_topic t,
        drop-append_length l.base_topic t,
        no_slash topic,
      )
      (unflatten topic lacks)
