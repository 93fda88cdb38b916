-- ===== src/Pubsub/Address/Roundtrip.antt =====
-- The addresses of the topics that a leaf publishes or subscribes to.
use stacx.Prelude.{
  ℕ, zero, suc, ◌+◌, ◌≡◌, refl, sym, ap, ◌∙◌, Bool, true, false, ◌||◌, some, [], ◌∷◌, ◌++◌, length,
  take, drop, take-append_length, drop-append_length, length-append, leb, arith,
}
use stacx.Prelude.Text.{
  Text, lit, text_eq, starts_with-append, index_of, index_of_from, index_of-append, Lacks,
}
use mathlib.Core.Option
use mathlib.Core.List.{append_assoc}
use stacx.Platform.{Platform}
use stacx.Leaf.State.{Leaf}
use stacx.Leaf.Topic.{Device, base_topic_of}
use stacx.Pubsub.Address.{field, parse_device_topic}

drop-take : (n k m : ℕ) (t : Text) → m ≡ n + k → drop n (take m t) ≡ take k (drop n t)
drop-take zero k m t h = let same : m ≡ k = omega arith in ap (λ i. take i t) same
drop-take (suc n) k zero t h = absurd (omega arith)
drop-take (suc n) zero (suc m) [] h = refl
drop-take (suc n) (suc k) (suc m) [] h = refl
drop-take (suc n) k (suc m) (a ∷ t) h = drop-take n k m t (omega arith)

drop-drop : (n k m : ℕ) (t : Text) → m ≡ n + k → drop m t ≡ drop k (drop n t)
drop-drop zero k m t h = let same : m ≡ k = omega arith in ap (λ i. drop i t) same
drop-drop (suc n) k zero t h = absurd (omega arith)
drop-drop (suc n) zero (suc m) [] h = refl
drop-drop (suc n) (suc k) (suc m) [] h = refl
drop-drop (suc n) k (suc m) (a ∷ t) h = drop-drop n k m t (omega arith)

drop-append_next :
    (word after : Text) (c k : ℕ) → k ≡ length word + 1 → drop k (word ++ c ∷ after) ≡ after
drop-append_next [] after c zero h = absurd (omega arith)
drop-append_next [] after c (suc k) h =
    let first : k ≡ 0 = omega arith in ap (λ i. drop i after) first
drop-append_next (a ∷ word) after c zero h = absurd (omega arith)
drop-append_next (a ∷ word) after c (suc k) h = drop-append_next word after c k (omega arith)

-- A field is cut off at its slash.
pub field-cut :
    (topic word after : Text) (n : ℕ)
    → drop n topic ≡ word ++ b'/' ∷ after
    → Lacks b'/' word
    → (field topic n ≡ some (word, n + length word + 1))
      × (drop (n + length word + 1) topic ≡ after)
unfolding field
field-cut topic word after n at lacks =
    let found : index_of_from topic b'/' n ≡ some (n + length word) =
      ap (λ t. Option.map (λ i. n + i) (index_of t b'/')) at
      ∙ ap (λ o. Option.map (λ i. n + i) o) (index_of-append word after b'/' lacks) in
    let ordered : leb n (n + length word) ≡ true = ground arith in
    let cut : drop n (take (n + length word) topic) ≡ word =
      drop-take n (length word) (n + length word) topic refl
      ∙ ap (λ t. take (length word) t) at
      ∙ take-append_length word (b'/' ∷ after) in
    let rest : drop (n + length word + 1) topic ≡ after =
      drop-drop n (length word + 1) (n + length word + 1) topic (omega arith)
      ∙ ap (λ t. drop (length word + 1) t) at
      ∙ drop-append_next word after b'/' (length word + 1) refl in
    (simp (field, found, ordered, cut), rest)

-- "cmd", "get" and "set" in the place of a type address every leaf of the device.
abbrev pub is_verb : Text → Bool
is_verb t = text_eq t (lit "cmd") || text_eq t (lit "get") || text_eq t (lit "set")

abbrev address_topic : Text → Text → Text → Text → Text → Text
address_topic header id type name topic =
    header ++ (id ++ b'/' ∷ (type ++ b'/' ∷ (name ++ b'/' ∷ topic)))

parse-address_topic :
    (root id type name topic : Text)
    → Lacks b'/' id
    → Lacks b'/' type
    → Lacks b'/' name
    → is_verb type ≡ false
    → parse_device_topic root (address_topic (root ++ lit "devices/") id type name topic)
      ≡ some (record {
        device_type = type;
        device_name = name;
        device_target = id;
        device_topic = topic;
      })
unfolding parse_device_topic
parse-address_topic root id type name topic plain_id plain_type plain_name no_verb =
    let header = root ++ lit "devices/" in
    let full = address_topic header id type name topic in
    let start = length root + length (lit "devices/") in
    let at_start : start ≡ length header = sym (length-append root (lit "devices/")) in
    let at_id =
      ap (λ i. drop i full) at_start
      ∙ drop-append_length header (id ++ b'/' ∷ (type ++ b'/' ∷ (name ++ b'/' ∷ topic))) in
    let (id_cut, at_type) =
      field-cut full id (type ++ b'/' ∷ (name ++ b'/' ∷ topic)) start at_id plain_id in
    let (type_cut, at_name) = field-cut full type (name ++ b'/' ∷ topic) _ at_type plain_type in
    let (name_cut, at_topic) = field-cut full name topic _ at_name plain_name in
    let headed = starts_with-append header (id ++ b'/' ∷ (type ++ b'/' ∷ (name ++ b'/' ∷ topic))) in
    simp (parse_device_topic, headed, id_cut, type_cut, no_verb, name_cut, at_topic)

base_topic-address_topic :
    {P : Platform} (d : Device) (l : Leaf P) (topic : Text)
    → l.impersonate_backplane ≡ false
    → base_topic_of d (some true) l ++ topic
      ≡ address_topic (d.root_topic ++ lit "devices/") d.device_id l.leaf_type l.leaf_name topic
unfolding base_topic_of
base_topic-address_topic d l topic own = simp (base_topic_of, own, append_assoc) refl

-- Where device topics are in use, a topic of a leaf with its own address — its base topic and then any
-- text — is parsed to that leaf's type and name, to this device and to that text, if the names hold no
-- slash and the type is not one of the verbs.
pub parse_device_topic-base_topic :
    {P : Platform} (d : Device) (l : Leaf P) (topic : Text)
    → l.impersonate_backplane ≡ false
    → Lacks b'/' d.device_id
    → Lacks b'/' l.leaf_type
    → Lacks b'/' l.leaf_name
    → is_verb l.leaf_type ≡ false
    → parse_device_topic d.root_topic (base_topic_of d (some true) l ++ topic)
      ≡ some (record {
        device_type = l.leaf_type;
        device_name = l.leaf_name;
        device_target = d.device_id;
        device_topic = topic;
      })
parse_device_topic-base_topic d l topic own plain_id plain_type plain_name no_verb =
    ap (parse_device_topic d.root_topic) (base_topic-address_topic d l topic own)
    ∙ parse-address_topic d.root_topic d.device_id l.leaf_type l.leaf_name topic plain_id plain_type
        plain_name no_verb
