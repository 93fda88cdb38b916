-- ===== src/Pubsub/SendQueue/Tests.antt =====
-- A queue for two messages, as a list (abstract_pubsub.h).
use stacx.Prelude.{
  ℕ, zero, suc, ◌<◌, ◌≤◌, ◌≡◌, refl, ap, true, false, Option, none, some, List, [], ◌∷◌, ◌++◌,
  if◌then◌else◌, length, length-append, take, ltb, arith,
}
use stacx.Prelude.Text.{lit}
use stacx.Pubsub.SendQueue.{
  QueuedMessage, QueueLibrary, Sender, waiting, queue_publish, flush_send_queue, flush_loop,
  mqtt_publish_queued, store,
}
use stacx.Pubsub.SendQueue.Order.{in_order, flush_send_queue-in_order}
use stacx.Pubsub.SendQueue.Storing.{queue_publish-full}

take-all : (n : ℕ) (xs : List QueuedMessage) → length xs ≤ n → take n xs ≡ xs
take-all zero [] h = refl
take-all zero (x ∷ xs) h = absurd (omega arith)
take-all (suc n) [] h = refl
take-all (suc n) (x ∷ xs) h = ap (λ t. x ∷ t) (take-all n xs (omega arith))

length-take-le : (n : ℕ) (xs : List QueuedMessage) → length (take n xs) ≤ n
length-take-le zero xs = omega arith
length-take-le (suc n) [] = omega arith
length-take-le (suc n) (x ∷ xs) = omega (arith, length-take-le n xs)

-- The capacity, and a list of which that many count.
abbrev ListQueue : Type 0
ListQueue = ℕ × List QueuedMessage

abbrev held : ListQueue → List QueuedMessage
held q = take q.0 q.1

abbrev list_send : ListQueue → QueuedMessage → Option ListQueue
list_send q m = if ltb (length (held q)) q.0 then some (q.0, held q ++ m ∷ []) else none

abbrev first_of : ℕ → List QueuedMessage → Option (QueuedMessage × ListQueue)
first_of n [] = none
first_of n (m ∷ rest) = some (m, (n, rest))

list_send-room :
    (q : ListQueue) (m : QueuedMessage)
    → length (held q) < q.0
    → (next : ListQueue) × (list_send q m ≡ some next)
      × (held next ≡ held q ++ m ∷ [])
      × (next.0 ≡ q.0)
list_send-room q m room = (
  (q.0, held q ++ m ∷ []),
  ground arith,
  take-all q.0 (held q ++ m ∷ []) (omega (arith, length-append (held q) (m ∷ []))),
  refl,
)

list_send-full : (q : ListQueue) (m : QueuedMessage) → q.0 ≤ length (held q) → list_send q m ≡ none
list_send-full q m full = ground arith

first_of-cons :
    (q : ListQueue) (m : QueuedMessage) (rest : List QueuedMessage)
    → held q ≡ m ∷ rest
    → (next : ListQueue) × (first_of q.0 (held q) ≡ some (m, next))
      × (held next ≡ rest)
      × (next.0 ≡ q.0)
first_of-cons q m rest e = (
  (q.0, rest),
  ap (first_of q.0) e,
  take-all q.0 rest (ground (arith, length-take-le q.0 q.1, ap length e)),
  refl,
)

abbrev list_queues : QueueLibrary
list_queues = record {
  Queue = ListQueue;
  contents = held;
  capacity = λ q. q.0;
  contents_bounded = λ q. length-take-le q.0 q.1;
  send = list_send;
  receive = λ q. first_of q.0 (held q);
  send-room = list_send-room;
  send-full = list_send-full;
  receive-empty = λ q e. ap (first_of q.0) e;
  receive-cons = first_of-cons;
}

abbrev message : QueuedMessage
message = record { topic = lit "status/lamp"; payload = lit "on"; qos = 0; retain = false }

abbrev later : QueuedMessage
later = record { topic = lit "status/lamp"; payload = lit "off"; qos = 0; retain = false }

-- The queue is full, and the broker is away.
abbrev full : Sender list_queues
full = record {
  send_queue = some (2, message ∷ later ∷ []);
  pubsub_send_queue_size = 2;
  pubsub_always_queue = false;
  pubsub_loopback = false;
  pubsub_connected = false;
  transmitted = [];
}

-- The connection is back.
abbrev online : Sender list_queues
online = record full { pubsub_connected = true }

-- Without a connection the loop that empties the queue goes on for ever.
endless : flush_send_queue list_queues 0 false full ≡ none
unfolding flush_send_queue flush_loop mqtt_publish_queued store
endless = refl

flush_send_queue-in_order_example :
    ((t : Sender list_queues) × (flush_send_queue list_queues 1 false online ≡ some t)
      × (in_order list_queues t ≡ message ∷ later ∷ []))
    × ((u : Sender list_queues) × (flush_send_queue list_queues 0 false online ≡ some u)
        × (u.transmitted ≡ message ∷ later ∷ [])
        × (waiting list_queues u ≡ []))
flush_send_queue-in_order_example = flush_send_queue-in_order list_queues 1 online refl

-- The third message is lost.
queue_publish-full_example :
    (t : Sender list_queues) × (queue_publish list_queues message full ≡ some (t, false))
    × (waiting list_queues t ≡ later ∷ message ∷ [])
    × (t.transmitted ≡ [])
queue_publish-full_example =
    queue_publish-full list_queues full message (later ∷ []) message
      (record {
        queue = (2, message ∷ later ∷ []);
        at = refl;
        sized = refl;
        holds = refl;
        full = refl;
      })
      refl
