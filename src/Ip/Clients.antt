-- ===== src/Ip/Clients.antt =====
-- The table of TCP clients (abstract_ip.h: `tcpConnect`, `tcpRelease`, `ipClientStatus`). A client is
-- a number in place of its pointer; making one, which the subclasses do, and its connection to a host
-- are parameters.
pub mod Counting
pub mod Refinement
pub mod Tests
use stacx.Prelude.{
  ℕ, suc, zero, ◌+◌, ◌==◌, ltb, Bool, true, false, Option, none, some, [], ◌∷◌, ◌++◌, List, set,
  if◌then◌else◌, is_some,
}
use stacx.Prelude.Text.{Text, lit}
use stacx.Prelude.Int.{ℤ, pos, int_eq}
use stacx.Prelude.Number.{show_nat}

abbrev pub Client : Type 0
Client = ℕ

-- ip_clients[]
abbrev pub Slots : Type 0
Slots = List (Option Client)

abbrev pub client_session_max : ℕ
client_session_max = 8

-- The constructor.
unfoldable pub no_clients : ℕ → Slots
no_clients zero = []
no_clients (suc n) = none ∷ no_clients n

-- The first slot that is NULL; past the last one if there is none.
unfoldable pub free_slot : Slots → ℕ
free_slot [] = 0
free_slot (none ∷ slots) = 0
free_slot (some c ∷ slots) = suc (free_slot slots)

-- The clients of a session table with the pointers that have been deleted; `client` is what the
-- operation returns, `slot` what it writes through `slot_r`.
pub record Sessions : Type 0 where
  pub slots : Slots
  pub deleted : List Client

pub record Connected : Type 0 where
  pub sessions : Sessions
  pub client : Option Client
  pub slot : Option ℕ

-- The first slot of the client is cleared.
unfoldable pub clear_slot : Client → Slots → Slots
clear_slot client [] = []
clear_slot client (none ∷ slots) = none ∷ clear_slot client slots
clear_slot client (some c ∷ slots) =
    let rest = clear_slot client slots in if c == client then none ∷ slots else some c ∷ rest

-- The client is deleted whether it was found or not.
unfoldable pub tcp_release : Client → Sessions → Sessions
unfolding clear_slot
tcp_release client s = record {
  slots = clear_slot client s.slots;
  deleted = s.deleted ++ client ∷ [];
}

-- 1 is a connection, 2 one that is pending.
abbrev pub is_connection : ℤ → Bool
is_connection result = if int_eq result (pos 1) then true else int_eq result (pos 2)

unfoldable pub tcp_connect : (ℕ → Option Client) → (Client → ℤ) → Sessions → Connected
unfolding free_slot tcp_release
tcp_connect new_client connect s =
    let slot = free_slot s.slots in
    if ltb slot client_session_max
    then elim (new_client slot) [
      | none ↦ record { sessions = s; client = none; slot = none }
      | some client ↦
          let filed : Sessions = record {
            slots = set s.slots slot (some client);
            deleted = s.deleted;
          } in
          if is_connection (connect client)
          then record { sessions = filed; client = some client; slot = some slot }
          else record { sessions = tcp_release client filed; client = none; slot = some slot }
    ]
    else record { sessions = s; client = none; slot = none }

unfoldable pub count_clients : Slots → ℕ
count_clients [] = 0
count_clients (none ∷ slots) = count_clients slots
count_clients (some c ∷ slots) = suc (count_clients slots)

-- A line for each client from slot `i` on; `connected` is the client's own answer.
unfoldable pub client_lines : (Client → Bool) → Text → ℕ → Slots → List (Text × Text)
client_lines connected name i [] = []
client_lines connected name i (none ∷ slots) = client_lines connected name (suc i) slots
client_lines connected name i (some c ∷ slots) =
    (
      lit "status/" ++ (name ++ (lit "_client/" ++ show_nat i)),
      if connected c then lit "connected" else lit "disconnected",
    )
    ∷ client_lines connected name (suc i) slots

-- ipClientStatus, as the topics and payloads that it publishes
unfoldable pub client_status : (Client → Bool) → Text → Slots → List (Text × Text)
unfolding count_clients client_lines
client_status connected name slots =
    (lit "status/" ++ (name ++ lit "_client_count"), show_nat (count_clients slots))
    ∷ client_lines connected name 0 slots
