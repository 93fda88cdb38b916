-- ===== src/Pubsub/SendQueue/Order.antt =====
-- The order in which queued messages leave, and what happens to them while nothing is sent (abstract_pubsub.h).
use stacx.Prelude.{
  ℕ, zero, suc, ◌+◌, ◌==◌, ◌≡◌, ◌<◌, refl, sym, ap, ◌∙◌, true, false, not, ◌&&◌, Option, some, [],
  ◌∷◌, ◌++◌, List, length, leb, Bool-cases, Option-cases, inl, inr, ◌⊎◌, arith,
}
use mathlib.Core.List.{append_assoc, append-nil}
use stacx.Pubsub.SendQueue.{
  QueuedMessage, QueueLibrary, Sender, waiting, sends, mqtt_publish_queued, after_receive,
  flush_loop, flush_send_queue,
}

module _ (lib : QueueLibrary) where
  -- The messages that were sent, and then those that wait.
  abbrev pub in_order : Sender lib → List QueuedMessage
  in_order s = s.transmitted ++ waiting lib s

  list_cases {ℓ} :
      {A : Type ℓ} (xs : List A) → (xs ≡ []) ⊎ ((x : A) × (rest : List A) × (xs ≡ x ∷ rest))
  list_cases [] = inl refl
  list_cases (x ∷ rest) = inr (x, rest, refl)

  pub waiting-some :
      (s : Sender lib) (q : lib.Queue) → s.send_queue ≡ some q → waiting lib s ≡ lib.contents q
  waiting-some s q at = simp (waiting, at)

  -- A message that was taken and sent.
  abbrev pub sent : Sender lib → QueuedMessage → lib.Queue → Sender lib
  sent s m q = record s { send_queue = some q; transmitted = s.transmitted ++ m ∷ [] }

  pub after_receive-sent :
      (s : Sender lib) (m : QueuedMessage) (q : lib.Queue)
      → sends lib s ≡ true
      → after_receive lib s false m q ≡ sent s m q
  unfolding mqtt_publish_queued
  after_receive-sent s m q online = simp online

  -- One message is moved from the head of the queue to the end of those sent.
  pub sent-in_order :
      (s : Sender lib) (q next : lib.Queue) (m : QueuedMessage)
      → s.send_queue ≡ some q
      → lib.contents q ≡ m ∷ lib.contents next
      → in_order (sent s m next) ≡ in_order s
  sent-in_order s q next m at head =
      append_assoc s.transmitted (m ∷ []) (lib.contents next)
      ∙ ap (λ t. s.transmitted ++ t) (sym (waiting-some s q at ∙ head))

  -- The loop ends in a state with the messages in order, and without a count with none waiting.
  abbrev Flushes : ℕ → Sender lib → Option (Sender lib) → Type 0
  Flushes count s r =
      (t : Sender lib) × (r ≡ some t) × (in_order t ≡ in_order s) × (count ≡ 0 → waiting lib t ≡ [])

  flush_loop-Flushes :
      (fuel n count : ℕ) (s : Sender lib)
      → sends lib s ≡ true
      → length (waiting lib s) < fuel
      → Flushes count s (flush_loop lib fuel n count false s)
  unfolding flush_loop
  flush_loop-Flushes zero n count s online enough = absurd (omega arith)
  flush_loop-Flushes (suc fuel) n count s online enough = elim (Option-cases s.send_queue) [
    | inl e ↦ (s, simp (flush_loop, e), refl, λ h. simp (waiting, e))
    | inr (q, at) ↦ elim (list_cases (lib.contents q)) [
      | inl e ↦
          (s, simp (flush_loop, at, lib.receive-empty q e), refl, λ h. waiting-some s q at ∙ e)
      | inr (m, rest, e) ↦
          let (next, got, left, _) = lib.receive-cons q m rest e in
          let moved = sent-in_order s q next m at (e ∙ ap (λ t. m ∷ t) (sym left)) in
          let fewer : length (lib.contents next) < fuel =
            ground (arith, left, waiting-some s q at, e, enough) in
          let (t, ends, order, none_left) =
            flush_loop-Flushes fuel (n + 1) count (sent s m next) online fewer in
          elim (Bool-cases (not (count == 0) && leb count (n + 1))) [
            | inl last ↦ (
              sent s m next,
              simp (flush_loop, at, got, last, after_receive-sent s m next online),
              moved,
              λ h. absurd (ground arith),
            )
            | inr further ↦ (
              t,
              simp (flush_loop, at, got, further, after_receive-sent s m next online) ends,
              order ∙ moved,
              none_left,
            )
          ]
    ]
  ]

  -- While the transport sends, that is while it loops back or is connected and does not queue everything, flushing
  -- without dropping ends, sends messages in the order in which they were queued, and loses none: those that
  -- were sent, followed by those that still wait, are what they were. Without a count all of them are sent.
  pub flush_send_queue-in_order :
      (count : ℕ) (s : Sender lib)
      → sends lib s ≡ true
      → ((t : Sender lib) × (flush_send_queue lib count false s ≡ some t)
          × (in_order t ≡ in_order s))
        × ((u : Sender lib) × (flush_send_queue lib 0 false s ≡ some u)
            × (u.transmitted ≡ in_order s)
            × (waiting lib u ≡ []))
  unfolding flush_send_queue
  flush_send_queue-in_order count s online =
      let flushed = λ (count : ℕ).
        flush_loop-Flushes (suc (length (waiting lib s) + count)) 0 count s online (omega arith) in
      let (t, ends, order, _) = flushed count in
      let (u, over, whole, left) = flushed 0 in
      let nothing = left refl in
      (
        (t, ends, order),
        (
          u,
          over,
          sym (append-nil u.transmitted) ∙ ap (λ r. u.transmitted ++ r) (sym nothing) ∙ whole,
          nothing,
        ),
      )
