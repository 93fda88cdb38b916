-- ===== src/Pubsub/SendQueue.antt =====
-- The queue of messages that wait for the broker: `_mqtt_queue_publish` and `flushSendQueue` of
-- abstract_pubsub.h, the sending after a connect in `pubsubOnConnect`, and the choice of `_mqtt_publish` in
-- leaf_pubsub_mqtt_esp.h between sending and queueing.
pub mod Order
pub mod Storing
pub mod Tests
use stacx.Prelude.{
  ℕ, zero, suc, ◌+◌, ◌-◌, ◌*◌, ◌==◌, ◌≡◌, ◌<◌, ◌≤◌, Bool, true, false, not, ◌&&◌, ◌||◌, Option,
  none, some, [], ◌∷◌, ◌++◌, List, if◌then◌else◌, length, leb,
}
use stacx.Prelude.Text.{Text}

pub record QueuedMessage : Type 0 where
  pub topic : Text
  pub payload : Text
  pub qos : ℕ
  pub retain : Bool

-- The documented behaviour of a FreeRTOS queue: it holds at most as many messages as it was created
-- for, xQueueGenericSend to the back stores one if there is room and fails otherwise, and xQueueReceive takes the oldest.
pub record QueueLibrary : Type 1 where
  pub Queue : Type 0
  pub contents : Queue → List QueuedMessage
  pub capacity : Queue → ℕ
  pub send : Queue → QueuedMessage → Option Queue
  pub receive : Queue → Option (QueuedMessage × Queue)
  pub contents_bounded : (q : Queue) → length (contents q) ≤ capacity q
  pub send-room :
      (q : Queue) (m : QueuedMessage)
      → length (contents q) < capacity q
      → (next : Queue) × (send q m ≡ some next)
        × (contents next ≡ contents q ++ m ∷ [])
        × (capacity next ≡ capacity q)
  pub send-full :
      (q : Queue) (m : QueuedMessage) → capacity q ≤ length (contents q) → send q m ≡ none
  pub receive-empty : (q : Queue) → contents q ≡ [] → receive q ≡ none
  pub receive-cons :
      (q : Queue) (m : QueuedMessage) (rest : List QueuedMessage)
      → contents q ≡ m ∷ rest
      → (next : Queue) × (receive q ≡ some (m, next))
        × (contents next ≡ rest)
        × (capacity next ≡ capacity q)

module _ (lib : QueueLibrary) where
  -- `transmitted` are the messages that were handed to the client library or looped back, the last one last.
  pub record Sender : Type 0 where
    pub send_queue : Option lib.Queue
    pub pubsub_send_queue_size : ℕ
    pub pubsub_always_queue : Bool
    pub pubsub_loopback : Bool
    pub pubsub_connected : Bool
    pub transmitted : List QueuedMessage

  abbrev pub waiting : Sender → List QueuedMessage
  waiting s = elim s.send_queue [ none ↦ [] | some q ↦ lib.contents q ]

  -- The attempt to store a message, and whether it was stored.
  abbrev pub store_with : Sender → Option lib.Queue → Sender × Bool
  store_with s none = (s, false)
  store_with s (some next) = (record s { send_queue = some next }, true)

  abbrev pub store_in : Sender → Option lib.Queue → QueuedMessage → Sender × Bool
  store_in s none m = (s, false)
  store_in s (some q) m = store_with s (lib.send q m)

  unfoldable pub store : QueuedMessage → Sender → Sender × Bool
  store m s = if s.pubsub_send_queue_size == 0 then (s, false) else store_in s s.send_queue m

  -- What `_mqtt_publish` does with a message: it sends it, or queues it.
  abbrev pub sends : Sender → Bool
  sends s = s.pubsub_loopback || (s.pubsub_connected && not s.pubsub_always_queue)

  -- `_mqtt_publish` of a message that was just taken from the queue, so that `_mqtt_queue_publish` finds room.
  unfoldable pub mqtt_publish_queued : QueuedMessage → Sender → Sender
  unfolding store
  mqtt_publish_queued m s =
      if sends s then record s { transmitted = s.transmitted ++ m ∷ [] } else (store m s).0

  abbrev pub after_receive : Sender → Bool → QueuedMessage → lib.Queue → Sender
  after_receive s drop m q =
      let taken : Sender = record s { send_queue = some q } in
      if drop then taken else mqtt_publish_queued m taken

  -- The loop of `flushSendQueue`, with fuel; `n` messages were taken before. The result is none when the fuel is
  -- used up.
  unfoldable pub flush_loop : ℕ → ℕ → ℕ → Bool → Sender → Option Sender
  unfolding mqtt_publish_queued
  flush_loop zero n count drop s = none
  flush_loop (suc fuel) n count drop s = elim s.send_queue [
    | none ↦ some s
    | some q ↦ elim (lib.receive q) [
      | none ↦ some s
      | some (m, next) ↦
          let taken = after_receive s drop m next in
          elim (not (count == 0) && leb count (n + 1)) [
            | true ↦ some taken
            | false ↦ flush_loop fuel (n + 1) count drop taken
          ]
    ]
  ]

  -- A round for each waiting message, or `count` rounds when messages come back, and one more. Without a count
  -- and without sending the loop of the code does not end, since each message goes back into the queue.
  unfoldable pub flush_send_queue : ℕ → Bool → Sender → Option Sender
  unfolding flush_loop
  flush_send_queue count drop s = flush_loop (suc (length (waiting s) + count)) 0 count drop s

  -- A full queue sends its oldest message, if anything is sent.
  unfoldable pub make_room : lib.Queue → Sender → Option Sender
  unfolding flush_send_queue
  make_room q s =
      let free = lib.capacity q - length (lib.contents q) in
      if free == 0 then flush_send_queue 1 false s else some s

  -- The state afterwards, and whether the message was stored.
  unfoldable pub queue_publish : QueuedMessage → Sender → Option (Sender × Bool)
  unfolding make_room store
  queue_publish m s = elim s.send_queue [
    | none ↦ some (s, false)
    | some q ↦ elim (s.pubsub_send_queue_size == 0) [
      | true ↦ some (s, false)
      | false ↦ elim (make_room q s) [ none ↦ none | some room ↦ some (store m room) ]
    ]
  ]

  -- The messages that waited are sent when the connection is made, unless everything is queued.
  unfoldable pub resend : Sender → Option Sender
  unfolding flush_send_queue
  resend s = if s.pubsub_always_queue then some s else flush_send_queue 0 false s
