-- ===== src/Taps/Linking.antt =====
-- What a tap links (leaf.h: `tap`, `add_tap`, `get_tap`, `publish`).
use stacx.Prelude.{
  ℕ, zero, suc, ◌≡◌, ◌≢◌, refl, sym, ◌∙◌, subst, ap, Option, none, some, [], ◌∷◌, List, map,
  get_elem?, get_elem?-set-some, get_elem?-set_ne, arith, Bool-cases, Option-cases, inl, inr,
}
use stacx.Prelude.Text.{Text, text_eq}
use stacx.Platform.{Platform, find-put_self}
use stacx.Platform.Assoc.{lookup}
use stacx.Taps.Finding.{Answers, find-finds}
use stacx.Taps.{Tap, Node, Network, find, update, add_tap, add_source, tap, get_tap, publish}

module _ {P : Platform} where
  -- An entry after a change of one of the table's entries.
  get_elem?-update_self :
      (net : Network P) (i : ℕ) (change : Node P → Node P) (n : Node P)
      → get_elem? net i ≡ some n
      → get_elem? (update net i change) i ≡ some (change n)
  get_elem?-update_self net i change n h = simp (update, h, get_elem?-set-some net i (change n) n h)

  get_elem?-update_ne :
      (net : Network P) (i j : ℕ) (change : Node P → Node P)
      → i ≢ j
      → get_elem? (update net i change) j ≡ get_elem? net j
  get_elem?-update_ne net i j change ne = elim (Option-cases (get_elem? net i)) [
    | inl e ↦ simp (update, e)
    | inr (n, e) ↦ simp (update, e, get_elem?-set_ne net i j (change n) ne)
  ]

  get_tap-add_source :
      (net : Network P) (self : ℕ) (alias : Text) (target : ℕ) (me : Node P)
      → get_elem? net self ≡ some me
      → get_tap (add_source net self alias target) self alias ≡ some target
  unfolding get_tap
  get_tap-add_source net self alias target me h =
      let at_self =
        get_elem?-update_self net self
          (λ n. record n { tap_sources = P.put n.tap_sources alias target }) me h in
      simp (get_tap, at_self, find-put_self P me.tap_sources alias target)

  -- The subscribers of the leaf at a position.
  abbrev pub taps_of : Network P → ℕ → Option (P.Map Tap)
  taps_of net i = elim (get_elem? net i) [ none ↦ none | some n ↦ some n.taps ]

  update-cons :
      (n : Node P) (net : Network P) (self : ℕ) (change : Node P → Node P)
      → update (n ∷ net) (suc self) change ≡ n ∷ update net self change
  update-cons n net self change = elim (Option-cases (get_elem? net self)) [
    | inl e ↦ simp (update, e)
    | inr (m, e) ↦ simp (update, e)
  ]

  -- Every leaf that stood in the table still stands there.
  update-present :
      (net : Network P) (self : ℕ) (change : Node P → Node P) (i : ℕ) (n : Node P)
      → get_elem? net i ≡ some n
      → (m : Node P) × (get_elem? (update net self change) i ≡ some m)
  update-present [] self change i n h = absurd (ground arith)
  update-present (x ∷ net) zero change zero n h = (change x, refl)
  update-present (x ∷ net) zero change (suc i) n h = (n, h)
  update-present (x ∷ net) (suc self) change zero n h = rw (update-cons x net self change) (x, refl)
  update-present (x ∷ net) (suc self) change (suc i) n h =
      rw (update-cons x net self change) (update-present net self change i n h)

  -- A change that keeps the subscribers of the leaf keeps those of the whole table.
  update-keeps :
      (net : Network P) (self : ℕ) (change : Node P → Node P) (i : ℕ)
      → ((n : Node P) → (change n).taps ≡ n.taps)
      → taps_of (update net self change) i ≡ taps_of net i
  update-keeps [] self change i keeps = refl
  update-keeps (n ∷ net) zero change zero keeps = ap some (keeps n)
  update-keeps (n ∷ net) zero change (suc i) keeps = refl
  update-keeps (n ∷ net) (suc self) change zero keeps = rw (update-cons n net self change) refl
  update-keeps (n ∷ net) (suc self) change (suc i) keeps =
      rw (update-cons n net self change) (update-keeps net self change i keeps)

  add_tap-present :
      (net : Network P) (publisher self : ℕ) (alias : Text) (i : ℕ) (n me : Node P)
      → get_elem? net self ≡ some me
      → get_elem? net i ≡ some n
      → (m : Node P) × (get_elem? (add_tap net publisher alias self) i ≡ some m)
  unfolding add_tap
  add_tap-present net publisher self alias i n me at_self h =
      rw (add_tap, at_self) (update-present net publisher _ i n h)

  add_tap-subscriber :
      (net : Network P) (publisher self : ℕ) (alias : Text) (me t : Node P)
      → get_elem? net self ≡ some me
      → get_elem? net publisher ≡ some t
      → get_elem? (add_tap net publisher alias self) publisher
        ≡ some (record t {
          taps = P.put t.taps me.leaf_name (record { alias = alias; target = self });
        })
  unfolding add_tap
  add_tap-subscriber net publisher self alias me t at_self at_publisher = simp (
    add_tap,
    at_self,
    get_elem?-update_self net publisher
        (λ n. record n {
          taps = P.put n.taps me.leaf_name (record { alias = alias; target = self });
        })
        t at_publisher,
  )

-- A subscription: the subscriber finds the publisher under its alias, and the publisher's
-- publications reach the subscriber under that alias.
pub record IsLinked {P : Platform} (net : Network P) (self : ℕ) (alias : Text) (target : ℕ)
    : Type 0 where
  pub source : get_tap net self alias ≡ some target
  pub publisher : Node P
  pub at_target : get_elem? net target ≡ some publisher
  pub reaches :
      (topic payload : Text)
      → (k : ℕ) × (get_elem? (publish publisher topic payload) k
          ≡ some (record {
            target = self;
            type = publisher.leaf_type;
            name = alias;
            topic = topic;
            payload = payload;
          }))

lookup-get_elem? :
    {V : Type 0} (entries : List (Text × V)) (key : Text) (v : V)
    → lookup key entries ≡ some v
    → (k : ℕ) × (j : Text) × (get_elem? entries k ≡ some (j, v))
lookup-get_elem? [] key v h = absurd (ground arith)
lookup-get_elem? ((j, w) ∷ entries) key v h = elim (Bool-cases (text_eq j key)) [
  | inl same ↦ (0, j, ground arith)
  | inr other ↦ let (k, i, e) = lookup-get_elem? entries key v (ground arith) in (suc k, i, e)
]

get_elem?-map :
    {A B : Type 0} (f : A → B) (xs : List A) (k : ℕ) (x : A)
    → get_elem? xs k ≡ some x
    → get_elem? (map f xs) k ≡ some (f x)
get_elem?-map f [] k x h = absurd (ground arith)
get_elem?-map f (y ∷ xs) zero x h = ground arith
get_elem?-map f (y ∷ xs) (suc k) x h = get_elem?-map f xs k x h

-- A leaf that is filed among the subscribers is reached by every publication.
publish-reaches :
    {P : Platform} (n : Node P) (key : Text) (s : Tap) (topic payload : Text)
    → P.find n.taps key ≡ some s
    → (k : ℕ) × (get_elem? (publish n topic payload) k
        ≡ some (record {
          target = s.target;
          type = n.leaf_type;
          name = s.alias;
          topic = topic;
          payload = payload;
        }))
unfolding publish
publish-reaches {P} n key s topic payload h =
    let (k, j, e) =
      lookup-get_elem? (P.entries n.taps) key s (sym (P.find-entries n.taps key) ∙ h) in
    (k, get_elem?-map _ (P.entries n.taps) k (j, s) e)

find_position :
    {P : Platform} (net : Network P) (name type : Text) (target : ℕ)
    → find net name type ≡ some target
    → (t : Node P) × (get_elem? net target ≡ some t)
find_position {P} net name type target found =
    let (t, at, asked, first) =
      subst (λ r. Answers net name type r) found (find-finds net name type) in
    (t, at)

-- tap(publisher, alias, type) links the subscriber with the leaf that `find` returns for the name and
-- the type: `get_tap` gives that leaf for the alias, and whatever it publishes reaches the subscriber
-- under the alias.
pub tap-links :
    {P : Platform} (net : Network P) (self : ℕ) (me : Node P) (publisher alias type : Text)
    (target : ℕ)
    → get_elem? net self ≡ some me
    → find net publisher type ≡ some target
    → IsLinked (tap net self publisher alias type) self alias target
unfolding tap
tap-links {P} net self me publisher alias type target at_self found =
    let first = find_position net publisher type target found in
    let net_1 = add_tap net target alias self in
    let source : Node P → Node P =
      λ n. record n { tap_sources = P.put n.tap_sources alias target } in
    let tapped = add_tap-subscriber net target self alias me first.0 at_self first.1 in
    let (me_1, me_1_at) = add_tap-present net target self alias self me me at_self at_self in
    let (t_2, t_2_at) = update-present net_1 self source target _ tapped in
    let same_taps = update-keeps net_1 self source target (λ n. refl) in
    let filed : P.find t_2.taps me.leaf_name ≡ some (record { alias = alias; target = self }) =
      ground (
        arith,
        find-put_self P first.0.taps me.leaf_name (record { alias = alias; target = self }),
      ) in
    simp (tap, found)
      (record {
        source = get_tap-add_source net_1 self alias target me_1 me_1_at;
        publisher = t_2;
        at_target = t_2_at;
        reaches = λ topic payload. publish-reaches t_2 me.leaf_name _ topic payload filed;
      })
