-- ===== src/Core/History/Shifting.antt =====
-- What an error does to the history (stacx.h: `post_error_history_update`, `post_error_history_entry`).
use stacx.Prelude.{
  ℕ, suc, ◌+◌, ◌*◌, ◌%◌, ◌<◌, ◌-◌, ◌≡◌, refl, sym, ap, ◌∙◌, some, [], ◌∷◌, ◌++◌, List, length,
  get_elem?, set, arith,
}
use stacx.Fault.{ok, ◌>>=◌}
use stacx.Prelude.Int.{pos}
use stacx.Core.History.{
  per_device, write_at, write_found, read_found, read_entry, history_entry, shift_up,
  history_update,
}

get_elem?-append :
    (before xs : List ℕ) (i : ℕ) → get_elem? (before ++ xs) (length before + i) ≡ get_elem? xs i
get_elem?-append [] xs i = let same : 0 + i ≡ i = omega arith in ap (get_elem? xs) same
get_elem?-append (b ∷ before) xs i =
    let same : suc (length before) + i ≡ suc (length before + i) = omega arith in
    ap (get_elem? (b ∷ (before ++ xs))) same ∙ get_elem?-append before xs i

set-append :
    (before xs : List ℕ) (i c : ℕ) → set (before ++ xs) (length before + i) c ≡ before ++ set xs i c
set-append [] xs i c = let same : 0 + i ≡ i = omega arith in ap (λ k. set xs k c) same
set-append (b ∷ before) xs i c =
    let same : suc (length before) + i ≡ suc (length before + i) = omega arith in
    ap (λ k. set (b ∷ (before ++ xs)) k c) same ∙ ap (λ ys. b ∷ ys) (set-append before xs i c)

write-append :
    (before xs : List ℕ) (i c old : ℕ)
    → get_elem? xs i ≡ some old
    → write_at (before ++ xs) (length before + i) c ≡ ok (before ++ set xs i c)
write-append before xs i c old there =
    let found = get_elem?-append before xs i ∙ there in
    ap (λ o. write_found o (before ++ xs) (length before + i) c) found
    ∙ ap (λ ys. ok ys) (set-append before xs i c)

-- One round.
round :
    (before xs : List ℕ) (i c old : ℕ)
    → get_elem? xs i ≡ some c
    → get_elem? xs (suc i) ≡ some old
    → shift_up (length before) (suc i) (before ++ xs)
      ≡ shift_up (length before) i (before ++ set xs (suc i) c)
unfolding shift_up
round before xs i c old here there =
    let found = get_elem?-append before xs i ∙ here in
    ap
      (λ o. read_found o >>= (λ v.
        write_at (before ++ xs) (length before + suc i) v >>= (λ g. shift_up (length before) i g)))
      found
    ∙ ap (λ r. r >>= (λ g. shift_up (length before) i g))
        (write-append before xs (suc i) c old there)

-- An error code for a device with five codes on record moves the first four of them back by one, forgets the
-- fifth and puts the new code first; the codes of the devices before and after it stay.
pub history_update-shifts :
    (dev err : ℕ) (before after : List ℕ) (a b c d e : ℕ)
    → length before ≡ dev * per_device
    → history_update dev err (before ++ (a ∷ b ∷ c ∷ d ∷ e ∷ after))
      ≡ ok (before ++ ((48 + err) % 256 ∷ a ∷ b ∷ c ∷ d ∷ after))
unfolding history_update shift_up
history_update-shifts dev err before after a b c d e place =
    let start = before ++ (a ∷ b ∷ c ∷ d ∷ e ∷ after) in
    let put = λ (h : List ℕ) (base : ℕ). write_at h base ((48 + err) % 256) in
    let first : length before ≡ length before + 0 = omega arith in
    let moved : shift_up (length before) 4 start ≡ ok (before ++ (a ∷ a ∷ b ∷ c ∷ d ∷ after)) =
      round before (a ∷ b ∷ c ∷ d ∷ e ∷ after) 3 d e refl refl
      ∙ round before (a ∷ b ∷ c ∷ d ∷ d ∷ after) 2 c d refl refl
      ∙ round before (a ∷ b ∷ c ∷ c ∷ d ∷ after) 1 b c refl refl
      ∙ round before (a ∷ b ∷ b ∷ c ∷ d ∷ after) 0 a b refl refl in
    ap (λ base. shift_up base 4 start >>= (λ g. put g base)) (sym place)
    ∙ ap (λ r. r >>= (λ g. put g (length before))) moved
    ∙ ap (put (before ++ (a ∷ a ∷ b ∷ c ∷ d ∷ after))) first
    ∙ write-append before (a ∷ a ∷ b ∷ c ∷ d ∷ after) 0 ((48 + err) % 256) a refl

-- The code that a device had last is the one that its entry 0 reads, if it fits a byte.
pub history_update-entry :
    (dev err : ℕ) (before after : List ℕ) (a b c d e : ℕ)
    → length before ≡ dev * per_device
    → err < 256
    → (history_update dev err (before ++ (a ∷ b ∷ c ∷ d ∷ e ∷ after))
        >>= (λ g. history_entry dev (pos 0) g))
      ≡ ok err
unfolding history_entry
history_update-entry dev err before after a b c d e place small =
    let new = (48 + err) % 256 in
    let here : per_device * dev + 0 ≡ length before + 0 = omega arith in
    let byte : (new + (256 - 48)) % 256 ≡ err = omega arith in
    ap (λ r. r >>= (λ g. history_entry dev (pos 0) g))
      (history_update-shifts dev err before after a b c d e place)
    ∙ ap (λ i. read_entry (before ++ (new ∷ a ∷ b ∷ c ∷ d ∷ after)) (pos i)) here
    ∙ ap (λ o. read_found o >>= (λ c. ok ((c + (256 - 48)) % 256)))
        (get_elem?-append before (new ∷ a ∷ b ∷ c ∷ d ∷ after) 0)
    ∙ ap (λ n. ok n) byte
