-- ===== src/Extenders/ShiftRegister/Messages/Agreement.antt =====
-- The chip agrees with the pins of the leaf over time (leaf_pinextender_74595.h).
use stacx.Prelude.{
  ℕ, ◌≡◌, Bool, true, false, ◌||◌, some, [], List, length, get_elem?, if◌then◌else◌, ltb, arith,
  subst,
}
use stacx.Prelude.Text.{Text, lit, text_eq, starts_with}
use stacx.Prelude.Int.{ℤ, pos, negsuc}
use stacx.Fault.{Result, ok, ◌>>=◌, >>=-eq-ok, ok-injective}
use stacx.Extenders.ShiftRegister.{Pin, Pins, electrical}
use stacx.Extenders.ShiftRegister.Chip.{Chip, drive_all}
use stacx.Extenders.ShiftRegister.Shifting.{write_pins-outputs}
use stacx.Extenders.ShiftRegister.Messages.{
  Served, Notice, shift_receive, change_channel, change_pin, set_pin, written, unchanged,
}

module _ (C : Chip) where
  -- Each pin shows at the output of its place.
  unfoldable pub Agrees : Pins → C.State → Type 0
  Agrees pins s =
      (i : ℕ) (p : Pin)
      → get_elem? pins i ≡ some p
      → get_elem? (C.outputs s) i ≡ some (electrical p)

  module _ (pins : Pins) (s : C.State) (agrees : Agrees pins s) where
    Keeps : Result Served → Type 0
    Keeps r = (v : Served) → r ≡ ok v → Agrees v.pins (drive_all C v.drives s)

    Keeps-written : (notices : List Notice) (new : Pins) → Keeps (ok (written notices new))
    unfolding Keeps Agrees
    Keeps-written notices new v same i p =
        subst
          (λ w.
            get_elem? w.pins i ≡ some p
            → get_elem? (C.outputs (drive_all C w.drives s)) i ≡ some (electrical p))
          (ok-injective same) (write_pins-outputs C new s i p)

    Keeps-unchanged :
        (passed : Bool) (notices : List Notice) → Keeps (ok (unchanged passed notices pins))
    unfolding Keeps Agrees
    Keeps-unchanged passed notices v same i p =
        subst
          (λ w.
            get_elem? w.pins i ≡ some p
            → get_elem? (C.outputs (drive_all C w.drives s)) i ≡ some (electrical p))
          (ok-injective same) (agrees i p)

    Keeps-bind :
        {A : Type 0} (first : Result A) (next : A → Result Served)
        → ((a : A) → Keeps (next a))
        → Keeps (first >>= next)
    unfolding Keeps
    Keeps-bind first next all v same =
        let (a, found, final) = >>=-eq-ok first next same in all a v final

    Keeps-if : (b : Bool) (x y : Result Served) → Keeps x → Keeps y → Keeps (if b then x else y)
    Keeps-if true x y hx hy = hx
    Keeps-if false x y hx hy = hy

    Keeps-change_channel : (bit : ℤ) (f : Bool → Bool) → Keeps (change_channel pins bit f)
    unfolding change_channel Keeps
    Keeps-change_channel (negsuc bit) f = λ v same. ground arith
    Keeps-change_channel (pos bit) f =
        Keeps-if (ltb bit (length pins)) _ _
          (Keeps-bind (change_pin pins bit f) _ (λ new. Keeps-written _ new))
          (Keeps-unchanged false [])

    Keeps-set_pin : (bit : ℤ) (name : Text) (value : Bool) → Keeps (set_pin pins bit name value)
    unfolding set_pin Keeps
    Keeps-set_pin (negsuc bit) name value = λ v same. ground arith
    Keeps-set_pin (pos bit) name value =
        Keeps-bind (change_pin pins bit (λ old. value)) _ (λ new. Keeps-written _ new)

    shift_receive-Keeps : (topic payload : Text) → Keeps (shift_receive pins topic payload)
    unfolding shift_receive
    shift_receive-Keeps topic payload =
        Keeps-if (text_eq topic (lit "get/pin")) _ _
          (Keeps-bind _ _ (λ shown. Keeps-unchanged true _))
          (Keeps-if (text_eq topic (lit "get/pins")) _ _ (Keeps-unchanged false _) (
            Keeps-if (starts_with topic (lit "set/pin/")) _ _ (Keeps-set_pin _ _ _) (
              Keeps-if (text_eq topic (lit "set/pins")) _ _
                (Keeps-bind _ _ (λ new. Keeps-written [] new))
                (Keeps-if (text_eq topic (lit "cmd/set")) _ _ (Keeps-change_channel _ _) (
                  Keeps-if (text_eq topic (lit "cmd/toggle")) _ _ (Keeps-change_channel _ _) (
                    Keeps-if (text_eq topic (lit "cmd/unset") || text_eq topic (lit "cmd/clear")) _
                      _ (Keeps-change_channel _ _) (Keeps-unchanged true [])))))))

-- As long as the outputs of the chip show the pins of the leaf: whatever message the leaf serves without
-- reaching outside its pins, they show them afterwards too, each pin as it is set then, and inverted where it is
-- inverted.
pub shift_receive-Agrees :
    (C : Chip) (pins : Pins) (s : C.State) (topic payload : Text) (v : Served)
    → Agrees C pins s
    → shift_receive pins topic payload ≡ ok v
    → (i : ℕ) (p : Pin) → get_elem? v.pins i ≡ some p
    → get_elem? (C.outputs (drive_all C v.drives s)) i ≡ some (electrical p)
unfolding Keeps Agrees
shift_receive-Agrees C pins s topic payload v agrees same =
    shift_receive-Keeps C pins s agrees topic payload v same
