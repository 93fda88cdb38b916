-- ===== src/Extenders/ShiftRegister/Shifting.antt =====
-- What the outputs of the chip show after a write (leaf_pinextender_74595.h: `write`).
use stacx.Prelude.{
  length, get_elem?-lt, ℕ, suc, zero, ◌+◌, ◌-◌, ◌%◌, ◌==◌, ◌≤◌, ◌<◌, ◌≡◌, refl, ap, ◌∙◌, Bool, true,
  false, some, [], ◌∷◌, ◌++◌, List, get_elem?, Bool-cases, inl, inr, arith, ltb,
}
use stacx.Extenders.ShiftRegister.{
  Pins, ds, shcp, stcp, Pin, write_pins, set_up_strobes, load_shifted_bits, electrical, Drive,
  bit_of, round_up, shift_out_one_bit, shift_from,
}
use stacx.Extenders.ShiftRegister.Chip.{Chip, drive_all}

-- The rounds that are left suffice to reach a multiple of eight.
round_up-fuel : (fuel n : ℕ) → (8 - n % 8) % 8 ≤ fuel → round_up fuel n ≡ n + (8 - n % 8) % 8
unfolding round_up
round_up-fuel zero n h = omega arith
round_up-fuel (suc fuel) n h = elim (Bool-cases (n % 8 == 0)) [
  | inl whole ↦ simp whole (ground arith)
  | inr broken ↦ simp broken (ground (arith, round_up-fuel fuel (suc n)))
]

-- The vector is padded to whole bytes, by less than eight bits, and eight rounds of the loop suffice.
pub round_up-whole : (n : ℕ) → (round_up 8 n % 8 ≡ 0) × (n ≤ round_up 8 n) × (round_up 8 n < n + 8)
round_up-whole n =
    let e = round_up-fuel 8 n (omega arith) in
    (omega (arith, e), omega (arith, e), omega (arith, e))

module _ (C : Chip) where
  drive_all-append :
      (es more : List Drive) (s : C.State)
      → drive_all C (es ++ more) s ≡ drive_all C more (drive_all C es s)
  drive_all-append [] more s = refl
  drive_all-append ((line, b) ∷ es) more s = drive_all-append es more (C.drive line b s)

  -- The clock and the strobe are low.
  IsIdle : C.State → Type 0
  IsIdle s = (C.clock_line s ≡ false) × (C.strobe_line s ≡ false)

  shift_out_one_bit-stages :
      (b : Bool) (s : C.State)
      → IsIdle s
      → (C.stages (drive_all C (shift_out_one_bit b) s) ≡ b ∷ C.stages s)
        × IsIdle (drive_all C (shift_out_one_bit b) s)
  unfolding shift_out_one_bit IsIdle
  shift_out_one_bit-stages b s (clock, strobe) =
      let loaded = C.drive ds b s in
      let low : C.clock_line loaded ≡ false = C.clock-ds b s ∙ clock in
      let risen = C.drive shcp true loaded in
      (
        C.stages-fall risen ∙ C.stages-rise loaded low ∙ rw (C.data-drive b s, C.stages-ds b s),
        (
          C.clock-drive false risen,
          C.strobe-shcp false risen ∙ C.strobe-shcp true loaded ∙ C.strobe-ds b s ∙ strobe,
        ),
      )

  shift_from-step :
      (v : Pins) (b : ℕ) (s : C.State)
      → drive_all C (shift_from v (suc b)) s
        ≡ drive_all C (shift_from v b) (drive_all C (shift_out_one_bit (bit_of (get_elem? v b))) s)
  unfolding shift_from
  shift_from-step v b s =
      drive_all-append (shift_out_one_bit (bit_of (get_elem? v b))) (shift_from v b) s

  shift_from-IsIdle :
      (v : Pins) (b : ℕ) (s : C.State) → IsIdle s → IsIdle (drive_all C (shift_from v b) s)
  unfolding shift_from
  shift_from-IsIdle v zero s idle = idle
  shift_from-IsIdle v (suc b) s idle =
      let (shifted, still) = shift_out_one_bit-stages (bit_of (get_elem? v b)) s idle in
      rw (shift_from-step v b s) (shift_from-IsIdle v b _ still)

  -- What was in the stages moves on by as many places as bits are shifted.
  shift_from-earlier :
      (v : Pins) (b j : ℕ) (s : C.State)
      → IsIdle s
      → get_elem? (C.stages (drive_all C (shift_from v b) s)) (b + j) ≡ get_elem? (C.stages s) j
  unfolding shift_from
  shift_from-earlier v zero j s idle = ap (get_elem? (C.stages s)) (omega arith)
  shift_from-earlier v (suc b) j s idle =
      let (shifted, still) = shift_out_one_bit-stages (bit_of (get_elem? v b)) s idle in
      let e : suc b + j ≡ b + suc j = omega arith in
      rw (shift_from-step v b s, e)
        (shift_from-earlier v b (suc j) _ still ∙ ap (λ l. get_elem? l (suc j)) shifted)

  shift_from-stages :
      (v : Pins) (b i : ℕ) (s : C.State)
      → IsIdle s
      → i < b
      → get_elem? (C.stages (drive_all C (shift_from v b) s)) i ≡ some (bit_of (get_elem? v i))
  unfolding shift_from
  shift_from-stages v zero i s idle h = absurd (omega arith)
  shift_from-stages v (suc b) i s idle h =
      let (shifted, still) = shift_out_one_bit-stages (bit_of (get_elem? v b)) s idle in
      elim (Bool-cases (ltb i b)) [
        | inl before ↦ rw (shift_from-step v b s) (shift_from-stages v b i _ still (ground arith))
        | inr last ↦
            let e : i ≡ b + 0 = ground arith in
            let same : b + 0 ≡ b = omega arith in
            rw (shift_from-step v b s, e)
              (shift_from-earlier v b 0 _ still ∙ ap (λ l. get_elem? l 0) shifted ∙ rw same refl)
      ]

  -- After a write the outputs of the chip show each pin as it is set, inverted where it is inverted, whatever
  -- the chip held before and however its lines stood.
  pub write_pins-outputs :
      (v : Pins) (s : C.State) (i : ℕ) (p : Pin)
      → get_elem? v i ≡ some p
      → get_elem? (C.outputs (drive_all C (write_pins v) s)) i ≡ some (electrical p)
  unfolding write_pins set_up_strobes load_shifted_bits IsIdle bit_of
  write_pins-outputs v s i p h =
      let ready = drive_all C set_up_strobes s in
      let idle : IsIdle ready = (
        C.clock-drive false (C.drive stcp false s),
        C.strobe-shcp false (C.drive stcp false s) ∙ C.strobe-drive false s,
      ) in
      let bits = shift_from v (round_up 8 (length v)) in
      let (clock, strobe) = shift_from-IsIdle v (round_up 8 (length v)) ready idle in
      let shifted = drive_all C bits ready in
      let within : i < round_up 8 (length v) =
        omega (arith, (round_up-whole (length v)).1, get_elem?-lt v i p h) in
      rw (drive_all-append bits load_shifted_bits ready) (
        ap (λ l. get_elem? l i)
          (C.outputs-fall (C.drive stcp true shifted) ∙ C.outputs-rise shifted strobe)
        ∙ shift_from-stages v (round_up 8 (length v)) i ready idle within
        ∙ ap (λ o. some (bit_of o)) h)
