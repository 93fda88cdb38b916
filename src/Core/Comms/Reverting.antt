-- ===== src/Core/Comms/Reverting.antt =====
-- Transactions and the return from them (stacx.h: `comms_state`).
use stacx.Prelude.{
  ℕ, ◌≡◌, sym, refl, ap, ◌∙◌, Bool, true, false, if◌then◌else◌, [], ◌∷◌, List, suc, zero,
}
use stacx.Core.Comms.{
  CommsState, undefined, offline, revert, wait_modem, try_modem, wait_ip, try_ip, try_gps,
  wait_pubsub, try_pubsub, online, transaction, Comms, comms_state, is_transaction, wanted, brown,
  magenta, orange, yellow, greenyellow, cyan, green, blue,
}
use stacx.Core.Comms.Looks.{
  Look, look_of, look, Kept, kept_of, View, view_of, request_view, styled-styled, styled-back,
  comms_state-view,
}

-- Requests one after the other.
unfoldable pub request_all : Bool → List CommsState → Comms → Comms
unfolding comms_state
request_all is_service [] s = s
request_all is_service (x ∷ xs) s = request_all is_service xs (comms_state is_service x s).0

abbrev pub transactions : ℕ → List CommsState
transactions zero = revert ∷ []
transactions (suc n) = transaction ∷ transactions n

-- The states that the light shows and that are not transactions.
abbrev is_shown : CommsState → Bool
is_shown undefined = false
is_shown revert = false
is_shown transaction = false
is_shown other = true

-- A transaction's look is replaced by that of the state before.
look-back :
    (x : CommsState) (pixel : Bool) (l : Look)
    → is_shown x ≡ true
    → (look x pixel (look transaction pixel (look x pixel l)) ≡ look x pixel l)
      × ((look x pixel l).pattern.identify ≡ l.pattern.identify)
look-back undefined pixel l h = absurd (cc)
look-back revert pixel l h = absurd (cc)
look-back transaction pixel l h = absurd (cc)
look-back offline pixel l h = (styled-back 100 1 brown pixel l, refl)
look-back wait_modem pixel l h = (styled-back 100 1 brown pixel l, refl)
look-back try_modem pixel l h = (styled-back 100 50 magenta pixel l, refl)
look-back wait_ip pixel l h = (styled-back 250 1 orange pixel l, refl)
look-back try_ip pixel l h = (styled-back 250 50 yellow pixel l, refl)
look-back try_gps pixel l h = (styled-back 250 50 cyan pixel l, refl)
look-back wait_pubsub pixel l h = (styled-back 500 1 greenyellow pixel l, refl)
look-back try_pubsub pixel l h = (styled-back 500 50 cyan pixel l, refl)
look-back online pixel l h = (styled-back 5000 1 green pixel l, refl)

-- The look that a state leaves, unless the light identifies the device.
abbrev look_if : Bool → CommsState → Bool → Look → Look
look_if identify x pixel l = if identify then l else look x pixel l

-- What a transaction leaves is left by the next one.
transaction-again :
    (b pixel : Bool) (l : Look)
    → l.pattern.identify ≡ b
    → let during : Look = look_if b transaction pixel l in
      look_if during.pattern.identify transaction pixel during ≡ during
transaction-again true pixel l h = ap (λ c. look_if c transaction pixel l) h
transaction-again false pixel l h =
    let during : Look = look transaction pixel l in
    ap (λ c. look_if c transaction pixel during) h ∙ styled-styled 1000 50 1000 50 blue blue pixel l

revert-back :
    (b pixel : Bool) (x : CommsState) (l : Look)
    → is_shown x ≡ true
    → l.pattern.identify ≡ b
    → let shown : Look = look_if b x pixel l in
      let during : Look = look_if b transaction pixel shown in
      look_if during.pattern.identify x pixel during ≡ shown
revert-back true pixel x l shown h = ap (λ c. look_if c x pixel l) h
revert-back false pixel x l shown h =
    let (back, same) = look-back x pixel l shown in
    ap (λ c. look_if c x pixel (look transaction pixel (look x pixel l))) (same ∙ h) ∙ back

-- During transactions that began in the state x with the look l.
abbrev During : CommsState → Bool → Look → View → Type 0
During x pixel l v =
    (v.0 ≡ record { hello_pixel = pixel; now = transaction; before = x })
    × (v.1 ≡ look_if l.pattern.identify transaction pixel l)

first_transaction :
    (x : CommsState) (pixel : Bool) (k : Kept) (l : Look)
    → k.now ≡ x
    → k.hello_pixel ≡ pixel
    → is_transaction x ≡ false
    → During x pixel l (request_view transaction (k, l))
first_transaction x pixel k l now same plain = (
  λ i. record {
    hello_pixel = same i;
    now = transaction;
    before =
        ((ap (λ (s : CommsState). if is_transaction s then k.before else s) now)
            ∙ ap (λ b. if b then k.before else x) plain)
          i;
  },
  ap (λ p. look_if l.pattern.identify transaction p l) same,
)

next_transaction :
    (x : CommsState) (pixel : Bool) (l : Look) (v : View)
    → During x pixel l v
    → During x pixel l (request_view transaction v)
next_transaction x pixel l v (kept, looks) =
    let after = ap (λ (w : View). request_view transaction w) (λ i. (kept i, looks i)) in
    (
      ap (λ (w : View). w.0) after,
      ap (λ (w : View). w.1) after ∙ transaction-again l.pattern.identify pixel l refl,
    )

look_if-identify :
    (b pixel : Bool) (x : CommsState) (l : Look)
    → is_shown x ≡ true
    → (look_if b x pixel l).pattern.identify ≡ l.pattern.identify
look_if-identify true pixel x l shown = refl
look_if-identify false pixel x l shown = (look-back x pixel l shown).1

abbrev view_all : List CommsState → View → View
view_all [] v = v
view_all (x ∷ xs) v = view_all xs (request_view x v)

request_all-view :
    (is_service : Bool) (xs : List CommsState) (s : Comms)
    → view_of (request_all is_service xs s) ≡ view_all xs (view_of s)
unfolding request_all
request_all-view is_service [] s = refl
request_all-view is_service (x ∷ xs) s =
    request_all-view is_service xs (comms_state is_service x s).0
    ∙ ap (view_all xs) (comms_state-view is_service x s)

-- The way back from transactions.
return :
    (x : CommsState) (pixel : Bool) (l : Look) (n : ℕ) (v : View)
    → is_shown x ≡ true
    → During x pixel (look_if l.pattern.identify x pixel l) v
    → ((view_all (transactions n) v).0.now ≡ x)
      × ((view_all (transactions n) v).1 ≡ look_if l.pattern.identify x pixel l)
return x pixel l zero v shown (kept, looks) =
    let same = look_if-identify l.pattern.identify pixel x l shown in
    let during =
      looks ∙ ap (λ b. look_if b transaction pixel (look_if l.pattern.identify x pixel l)) same in
    let after = ap (λ (w : View). request_view revert w) (λ i. (kept i, during i)) in
    (
      ap (λ (w : View). w.0.now) after,
      ap (λ (w : View). w.1) after ∙ revert-back l.pattern.identify pixel x l shown refl,
    )
return x pixel l (suc n) v shown h =
    return x pixel l n (request_view transaction v) shown
      (next_transaction x pixel (look_if l.pattern.identify x pixel l) v h)

shown-plain :
    (x prev : CommsState) → is_shown x ≡ true → (is_transaction x ≡ false) × (wanted x prev ≡ x)
shown-plain undefined prev h = absurd (cc)
shown-plain revert prev h = absurd (cc)
shown-plain transaction prev h = absurd (cc)
shown-plain offline prev h = (refl, refl)
shown-plain wait_modem prev h = (refl, refl)
shown-plain try_modem prev h = (refl, refl)
shown-plain wait_ip prev h = (refl, refl)
shown-plain try_ip prev h = (refl, refl)
shown-plain try_gps prev h = (refl, refl)
shown-plain wait_pubsub prev h = (refl, refl)
shown-plain try_pubsub prev h = (refl, refl)
shown-plain online prev h = (refl, refl)

-- When a state that the light shows, other than a transaction, is announced and then one transaction or several,
-- one directly after the other, the next REVERT brings back that state together with the pattern and the
-- colour of the light as the announcement left them, whether or not the light identifies the device.
pub transactions-revert :
    (is_service : Bool) (x : CommsState) (n : ℕ) (s : Comms)
    → is_shown x ≡ true
    → let announced = (comms_state is_service x s).0 in
      let returned = request_all is_service (transactions (suc n)) announced in
      (returned.stacx_comms_state ≡ x)
      × (returned.pattern ≡ announced.pattern)
      × (returned.hello_color ≡ announced.hello_color)
transactions-revert is_service x n s shown =
    let announced = (comms_state is_service x s).0 in
    let l = look_of s in
    let (plain, target) = shown-plain x s.stacx_comms_state_prev shown in
    let start : view_of announced ≡ request_view x (view_of s) = comms_state-view is_service x s in
    let looks : look_of announced ≡ look_if l.pattern.identify x s.hello_pixel l =
      ap (λ (v : View). v.1) start
      ∙ ap (λ t. look_if l.pattern.identify t s.hello_pixel l) target in
    let (kept, first) =
      first_transaction x s.hello_pixel (kept_of announced) (look_of announced)
        (ap (λ (v : View). v.0.now) start ∙ target) (ap (λ (v : View). v.0.hello_pixel) start)
        plain in
    let during =
      first ∙ ap (λ (k : Look). look_if k.pattern.identify transaction s.hello_pixel k) looks in
    let (now, back) =
      return x s.hello_pixel l n (request_view transaction (view_of announced)) shown
        (kept, during) in
    let run = request_all-view is_service (transactions (suc n)) announced in
    let same = ap (λ (v : View). v.1) run ∙ back ∙ sym looks in
    (
      ap (λ (v : View). v.0.now) run ∙ now,
      ap (λ (k : Look). k.pattern) same,
      ap (λ (k : Look). k.hello_color) same,
    )
