-- ===== src/Ip/Clients/Refinement.antt =====
-- What the table of TCP clients promises (abstract_ip.h: `tcpConnect`, `tcpRelease`): a bag of at most
-- eight clients, in which neither the slots nor their order show. A bag is its size with the number
-- of times that each client is in it.
use stacx.Prelude.{
  ℕ, suc, ◌-◌, ◌==◌, ◌&&◌, set, subst, ltb, ◌≡◌, refl, sym, ◌∙◌, ap, true, false, Option, none,
  some, [], ◌∷◌, List, length, length-set, if◌then◌else◌, Bool-cases, inl, inr, arith,
}
use stacx.Prelude.Int.{ℤ}
use stacx.Ip.Clients.{
  Client, Slots, Sessions, client_session_max, free_slot, clear_slot, tcp_connect, tcp_release,
  is_connection, count_clients,
}
use stacx.Ip.Clients.Counting.{
  held, held-filed, held-cleared, count_clients-filed, count_clients-cleared, length-cleared,
  free_slot-lt,
}

pub record Bag : Type 0 where
  pub size : ℕ
  pub count : Client → ℕ

unfoldable pub put_in : Client → Bag → Bag
put_in c b = record {
  size = suc b.size;
  count = λ d. if c == d then suc (b.count d) else b.count d;
}

-- A client that is not there is not missed.
unfoldable pub take_out : Client → Bag → Bag
take_out c b = record {
  size = if ltb 0 (b.count c) then b.size - 1 else b.size;
  count = λ d. if c == d then b.count d - 1 else b.count d;
}

-- An attempt to connect: the client that was made, if any, and what its connection answered.
pub data Request : Type 0 where
  dial : Option Client → ℤ → Request
  hang_up : Client → Request

unfoldable pub serve : Bag → Request → Bag × Option Client
unfolding put_in take_out
serve b (dial none result) = (b, none)
serve b (dial (some c) result) =
    if ltb b.size client_session_max && is_connection result
    then (put_in c b, some c)
    else (b, none)
serve b (hang_up c) = (take_out c b, none)

-- The bag of a table.
unfoldable pub view : Slots → Bag
view s = record { size = count_clients s; count = held s }

unfoldable pub handle : Sessions → Request → Sessions × Option Client
unfolding tcp_connect tcp_release
handle s (dial made result) =
    let done = tcp_connect (λ slot. made) (λ c. result) s in (done.sessions, done.client)
handle s (hang_up c) = (tcp_release c s, none)

Bag-path : (a b : Bag) → a.size ≡ b.size → ((d : Client) → a.count d ≡ b.count d) → a ≡ b
Bag-path a b same_size same_count = λ i. record { size = same_size i; count = λ d. same_count d i }

-- The requests of a list, one after another, and what each answered.
unfoldable pub run :
    {S : Type 0} → (S → Request → S × Option Client) → S → List Request → S × List (Option Client)
run step s [] = (s, [])
run step s (r ∷ rs) =
    let (next, answer) = step s r in
    let (last, answers) = run step next rs in (last, answer ∷ answers)

unfoldable pub IsTable : Sessions → Type 0
IsTable s = length s.slots ≡ client_session_max

view-filed :
    (s : Slots) (c : Client)
    → ltb (free_slot s) (length s) ≡ true
    → view (set s (free_slot s) (some c)) ≡ put_in c (view s)
unfolding view put_in
view-filed s c h = Bag-path _ _ (count_clients-filed s c h) (λ d. held-filed s c d h)

view-cleared : (s : Slots) (c : Client) → view (clear_slot c s) ≡ take_out c (view s)
unfolding view take_out
view-cleared s c = Bag-path _ _ (count_clients-cleared s c) (λ d. held-cleared s c d)

take_out-put_in : (c : Client) (b : Bag) → take_out c (put_in c b) ≡ b
unfolding put_in take_out
take_out-put_in c b = Bag-path _ _ (ground arith) (λ d. ground arith)

-- Where the table stands after a client has been filed.
view-refused :
    (s : Slots) (c : Client)
    → ltb (free_slot s) (length s) ≡ true
    → view (clear_slot c (set s (free_slot s) (some c))) ≡ view s
view-refused s c h =
    view-cleared (set s (free_slot s) (some c)) c
    ∙ ap (take_out c) (view-filed s c h)
    ∙ take_out-put_in c (view s)

handle-view :
    (s : Sessions) (r : Request)
    → IsTable s
    → (view (handle s r).0.slots ≡ (serve (view s.slots) r).0)
      × ((handle s r).1 ≡ (serve (view s.slots) r).1)
      × IsTable (handle s r).0
unfolding handle serve tcp_connect tcp_release IsTable view
handle-view s (hang_up c) table = (view-cleared s.slots c, refl, length-cleared s.slots c ∙ table)
handle-view s (dial none result) table = elim (Bool-cases (ltb (free_slot s.slots) 8)) [
  | inl free ↦ simp (handle, tcp_connect, free) (refl, refl, table)
  | inr full ↦ simp (handle, tcp_connect, full) (refl, refl, table)
]
handle-view s (dial (some c) result) table =
    let same : ltb (free_slot s.slots) 8 ≡ ltb (count_clients s.slots) 8 =
      subst (λ n. ltb (free_slot s.slots) n ≡ ltb (count_clients s.slots) n) table
        (free_slot-lt s.slots) in
    elim (Bool-cases (ltb (free_slot s.slots) 8)) [
      | inr full ↦
          let refuse : ltb (count_clients s.slots) 8 ≡ false = sym same ∙ full in
          simp (handle, serve, tcp_connect, full, refuse) (refl, refl, table)
      | inl free ↦
          let accept : ltb (count_clients s.slots) 8 ≡ true = sym same ∙ free in
          let room : ltb (free_slot s.slots) (length s.slots) ≡ true =
            subst (λ n. ltb (free_slot s.slots) n ≡ true) (sym table) free in
          let size : length (set s.slots (free_slot s.slots) (some c)) ≡ 8 =
            length-set s.slots (free_slot s.slots) (some c) ∙ table in
          elim (Bool-cases (is_connection result)) [
            | inl connects ↦
                simp (handle, serve, tcp_connect, free, accept, connects)
                  (view-filed s.slots c room, refl, size)
            | inr fails ↦
                simp (handle, serve, tcp_connect, tcp_release, free, accept, fails)
                  (
                    view-refused s.slots c room,
                    refl,
                    length-cleared (set s.slots (free_slot s.slots) (some c)) c ∙ size,
                  )
          ]
    ]

-- The table refines the bag: whatever connections and releases follow one another, from a table of
-- eight slots, each answers what the bag answers (a client when the bag has fewer than eight, one
-- was made and it connects), and the table ends with the clients of the bag.
pub run-handle :
    (s : Sessions) (rs : List Request)
    → IsTable s
    → ((run handle s rs).1 ≡ (run serve (view s.slots) rs).1)
      × (view (run handle s rs).0.slots ≡ (run serve (view s.slots) rs).0)
unfolding run
run-handle s [] table = (refl, refl)
run-handle s (r ∷ rs) table =
    let (same_view, same_answer, still) = handle-view s r table in
    let (answers, last) = run-handle (handle s r).0 rs still in
    subst
      (λ b.
        ((handle s r).1 ∷ (run handle (handle s r).0 rs).1
          ≡ (serve (view s.slots) r).1 ∷ (run serve b rs).1)
        × (view (run handle (handle s r).0 rs).0.slots ≡ (run serve b rs).0))
      same_view (rw same_answer (ap (λ t. (serve (view s.slots) r).1 ∷ t) answers), last)
