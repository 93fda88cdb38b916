-- ===== src/Ip/Clients/Counting.antt =====
-- How often a client stands in the table (abstract_ip.h: `tcpConnect`, `tcpRelease`).
use stacx.Prelude.{
  ℕ, suc, ◌-◌, ◌==◌, ◌≤◌, ltb, ◌≡◌, refl, ap, true, none, some, [], ◌∷◌, set, length, if◌then◌else◌,
  Bool-cases, inl, inr, arith,
}
use stacx.Ip.Clients.{Client, Slots, free_slot, clear_slot, count_clients}

-- The slots that hold a client.
unfoldable pub held : Slots → Client → ℕ
held [] d = 0
held (none ∷ slots) d = held slots d
held (some c ∷ slots) d = let rest = held slots d in if c == d then suc rest else rest

pub held-le : (s : Slots) (d : Client) → held s d ≤ count_clients s
unfolding held count_clients
held-le [] d = omega arith
held-le (none ∷ s) d = held-le s d
held-le (some c ∷ s) d = ground (arith, held-le s d)

pub count_clients-le : (s : Slots) → count_clients s ≤ length s
unfolding count_clients
count_clients-le [] = omega arith
count_clients-le (none ∷ s) = omega (arith, count_clients-le s)
count_clients-le (some c ∷ s) = omega (arith, count_clients-le s)

-- There is a free slot as long as the table is not full.
pub free_slot-lt : (s : Slots) → ltb (free_slot s) (length s) ≡ ltb (count_clients s) (length s)
unfolding free_slot count_clients
free_slot-lt [] = refl
free_slot-lt (none ∷ s) = ground (arith, count_clients-le s)
free_slot-lt (some c ∷ s) = ground (arith, free_slot-lt s)

pub count_clients-filed :
    (s : Slots) (c : Client)
    → ltb (free_slot s) (length s) ≡ true
    → count_clients (set s (free_slot s) (some c)) ≡ suc (count_clients s)
unfolding free_slot count_clients
count_clients-filed [] c h = ground arith
count_clients-filed (none ∷ s) c h = refl
count_clients-filed (some b ∷ s) c h = ap suc (count_clients-filed s c (ground arith))

pub held-filed :
    (s : Slots) (c d : Client)
    → ltb (free_slot s) (length s) ≡ true
    → held (set s (free_slot s) (some c)) d ≡ (if c == d then suc (held s d) else held s d)
unfolding free_slot held
held-filed [] c d h = ground arith
held-filed (none ∷ s) c d h = refl
held-filed (some b ∷ s) c d h = ground (arith, held-filed s c d (ground arith))

pub held-cleared :
    (s : Slots) (c d : Client)
    → held (clear_slot c s) d ≡ (if c == d then held s d - 1 else held s d)
unfolding clear_slot held
held-cleared [] c d = ground arith
held-cleared (none ∷ s) c d = held-cleared s c d
held-cleared (some b ∷ s) c d = elim (Bool-cases (b == c)) [
  | inl here ↦ ground arith
  | inr later ↦ ground (arith, held-cleared s c d)
]

pub count_clients-cleared :
    (s : Slots) (c : Client)
    → count_clients (clear_slot c s)
      ≡ (if ltb 0 (held s c) then count_clients s - 1 else count_clients s)
unfolding clear_slot held count_clients
count_clients-cleared [] c = refl
count_clients-cleared (none ∷ s) c = count_clients-cleared s c
count_clients-cleared (some b ∷ s) c = elim (Bool-cases (b == c)) [
  | inl here ↦ ground arith
  | inr later ↦ ground (arith, count_clients-cleared s c, held-le s c)
]

pub length-cleared : (s : Slots) (c : Client) → length (clear_slot c s) ≡ length s
unfolding clear_slot
length-cleared [] c = refl
length-cleared (none ∷ s) c = ap suc (length-cleared s c)
length-cleared (some b ∷ s) c = ground (arith, length-cleared s c)
