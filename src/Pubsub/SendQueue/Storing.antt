-- ===== src/Pubsub/SendQueue/Storing.antt =====
-- What happens to a message that is to be queued (abstract_pubsub.h: `_mqtt_queue_publish`).
use stacx.Prelude.{
  ◌-◌, ◌==◌, ◌≡◌, ◌<◌, ◌≤◌, refl, sym, ap, ◌∙◌, Bool, true, false, some, [], ◌∷◌, ◌++◌, List,
  length, length-append, arith,
}
use mathlib.Core.List.{append_assoc}
use stacx.Pubsub.SendQueue.{
  QueuedMessage, QueueLibrary, Sender, waiting, sends, store, store_with, store_in,
  mqtt_publish_queued, after_receive, flush_loop, flush_send_queue, make_room, queue_publish,
}
use stacx.Pubsub.SendQueue.Order.{in_order, waiting-some, sent, after_receive-sent, sent-in_order}

module _ (lib : QueueLibrary) where
  -- Storing where there is room, and where there is none.
  store-room :
      (s : Sender lib) (q : lib.Queue) (m : QueuedMessage)
      → s.send_queue ≡ some q
      → (s.pubsub_send_queue_size == 0) ≡ false
      → length (lib.contents q) < lib.capacity q
      → (next : lib.Queue) × (store lib m s ≡ (record s { send_queue = some next }, true))
        × (lib.contents next ≡ lib.contents q ++ m ∷ [])
        × (lib.capacity next ≡ lib.capacity q)
  unfolding store
  store-room s q m at sized room =
      let (next, stored, holds, same) = lib.send-room q m room in
      (
        next,
        simp sized (ap (λ o. store_in lib s o m) at ∙ ap (store_with lib s) stored),
        holds,
        same,
      )

  store-full :
      (s : Sender lib) (q : lib.Queue) (m : QueuedMessage)
      → s.send_queue ≡ some q
      → (s.pubsub_send_queue_size == 0) ≡ false
      → lib.capacity q ≤ length (lib.contents q)
      → store lib m s ≡ (s, false)
  unfolding store
  store-full s q m at sized full =
      simp sized (ap (λ o. store_in lib s o m) at ∙ ap (store_with lib s) (lib.send-full q m full))

  -- Once there is room.
  queue_publish-store :
      (s room : Sender lib) (q : lib.Queue) (m : QueuedMessage)
      → s.send_queue ≡ some q
      → (s.pubsub_send_queue_size == 0) ≡ false
      → make_room lib q s ≡ some room
      → queue_publish lib m s ≡ some (store lib m room)
  unfolding queue_publish
  queue_publish-store s room q m at sized made = simp (queue_publish, at, sized, made)

  -- The message of a full queue that is taken to make room.
  make_room-full :
      (s : Sender lib) (q : lib.Queue) (first : QueuedMessage) (rest : List QueuedMessage)
      → s.send_queue ≡ some q
      → lib.contents q ≡ first ∷ rest
      → lib.capacity q ≡ length (lib.contents q)
      → (next : lib.Queue) × (make_room lib q s ≡ some (after_receive lib s false first next))
        × (lib.contents next ≡ rest)
        × (lib.capacity next ≡ lib.capacity q)
  unfolding make_room flush_send_queue flush_loop
  make_room-full s q first rest at holds full =
      let (next, got, left, same) = lib.receive-cons q first rest holds in
      let none_free : (lib.capacity q - length (lib.contents q) == 0) ≡ true = ground arith in
      let counted = waiting-some lib s q at in
      (next, simp (make_room, none_free, flush_send_queue, flush_loop, at, got), left, same)

  -- The state of a full queue, with its oldest message first.
  pub record IsFull (s : Sender lib) (first : QueuedMessage) (rest : List QueuedMessage)
      : Type 0 where
    pub queue : lib.Queue
    pub at : s.send_queue ≡ some queue
    pub sized : (s.pubsub_send_queue_size == 0) ≡ false
    pub holds : lib.contents queue ≡ first ∷ rest
    pub full : lib.capacity queue ≡ length (lib.contents queue)

  -- A message that is to be queued while nothing is sent, since the transport is not connected or queues everything,
  -- and the queue is full, is lost, and the oldest message goes to the end of the queue.
  pub queue_publish-full :
      (s : Sender lib) (first : QueuedMessage) (rest : List QueuedMessage) (m : QueuedMessage)
      → IsFull s first rest
      → sends lib s ≡ false
      → (t : Sender lib) × (queue_publish lib m s ≡ some (t, false))
        × (waiting lib t ≡ rest ++ first ∷ [])
        × (t.transmitted ≡ s.transmitted)
  unfolding mqtt_publish_queued
  queue_publish-full s first rest m f offline =
      let (next, made, left, same) = make_room-full s f.queue first rest f.at f.holds f.full in
      let taken : Sender lib = record s { send_queue = some next } in
      let long = ap length f.holds in
      let room : length (lib.contents next) < lib.capacity next = ground (arith, ap length left) in
      let (back, stored, holds, as_big) = store-room taken next first refl f.sized room in
      let returned : Sender lib = record s { send_queue = some back } in
      let kept : after_receive lib s false first next ≡ returned =
        simp offline (ap (λ (r : Sender lib × Bool). r.0) stored) in
      let order : lib.contents back ≡ rest ++ first ∷ [] = holds ∙ ap (λ t. t ++ first ∷ []) left in
      let no_room : lib.capacity back ≤ length (lib.contents back) =
        ground (arith, ap length order, length-append rest (first ∷ [])) in
      (
        returned,
        queue_publish-store s returned f.queue m f.at f.sized (made ∙ ap (λ t. some t) kept)
            ∙ ap (λ r. some r) (store-full returned back m refl f.sized no_room),
        order,
        refl,
      )

  -- A message that is to be queued while the transport sends, and the queue is full, is stored last, after
  -- the oldest message was sent: nothing is lost, and the order is kept.
  queue_publish-sends :
      (s : Sender lib) (first : QueuedMessage) (rest : List QueuedMessage) (m : QueuedMessage)
      → IsFull s first rest
      → sends lib s ≡ true
      → (t : Sender lib) × (queue_publish lib m s ≡ some (t, true))
        × (in_order lib t ≡ in_order lib s ++ m ∷ [])
  queue_publish-sends s first rest m f online =
      let (next, made, left, same) = make_room-full s f.queue first rest f.at f.holds f.full in
      let gone = sent lib s first next in
      let long = ap length f.holds in
      let room : length (lib.contents next) < lib.capacity next = ground (arith, ap length left) in
      let (back, stored, holds, _) = store-room gone next m refl f.sized room in
      let kept = after_receive-sent lib s first next online in
      let head = f.holds ∙ ap (λ t. first ∷ t) (sym left) in
      (
        record gone { send_queue = some back },
        queue_publish-store s gone f.queue m f.at f.sized (made ∙ ap (λ t. some t) kept)
            ∙ ap (λ r. some r) stored,
        ap (λ t. gone.transmitted ++ t) holds
            ∙ sym (append_assoc gone.transmitted (lib.contents next) (m ∷ []))
            ∙ ap (λ t. t ++ m ∷ []) (sent-in_order lib s f.queue next first f.at head),
      )
