-- ===== src/Outputs/Lock/Extending.antt =====
-- A lock whose relay hangs on a shift register (leaf_lock.h: `setLock`; leaf_pinextender_74595.h:
-- `mqtt_receive`).
use stacx.Prelude.{
  ℕ, ◌≡◌, refl, ap, ◌∙◌, Bool, true, some, [], ◌∷◌, ◌++◌, List, get_elem?, set, get_elem?-set-some,
}
use stacx.Prelude.Text.{Text, not_empty}
use mathlib.Core.List.{append-nil}
use stacx.Prelude.Bits.{xor}
use stacx.Fault.{Result, ok, ◌>>=◌}
use stacx.Extenders.ShiftRegister.{Pin, Pins, Drive, write_pins}
use stacx.Extenders.ShiftRegister.Chip.{Chip, drive_all}
use stacx.Extenders.ShiftRegister.Shifting.{write_pins-outputs}
use stacx.Extenders.ShiftRegister.Messages.{Notice, shift_receive, written, shift_status}
use stacx.Extenders.ShiftRegister.Messages.Naming.{
  IsNamed, set_or_clear, shift_receive-set_or_clear,
}
use stacx.Outputs.{Output, drive, tell, report, retain, keep, wait_ms}
use stacx.Outputs.Lock.{Lock, set_lock, relay}

-- The messages among the effects, as topics and payloads.
unfoldable pub told : List Output → List (Text × Text)
told [] = []
told (tell target topic payload ∷ es) = (topic, payload) ∷ told es
told (drive level ∷ es) = told es
told (report topic payload ∷ es) = told es
told (retain topic payload ∷ es) = told es
told (keep n ∷ es) = told es
told (wait_ms n ∷ es) = told es

-- The shift registers serve them in order.
unfoldable pub serve_told : List (Text × Text) → Pins → Result (Pins × List Drive)
serve_told [] pins = ok (pins, [])
serve_told ((topic, payload) ∷ ms) pins =
    shift_receive pins topic payload
    >>= (λ v. serve_told ms v.pins >>= (λ r. ok (r.0, v.drives ++ r.1)))

told-set_lock :
    (s : Lock) (locked : Bool)
    → not_empty s.extender_pin ≡ true
    → told (set_lock s locked) ≡ (set_or_clear (xor locked s.invert), s.extender_pin) ∷ []
unfolding told set_lock relay
told-set_lock s locked given = simp (told, given)

serve_told-written :
    (topic payload : Text) (pins new : Pins) (notices : List Notice)
    → shift_receive pins topic payload ≡ ok (written notices new)
    → serve_told ((topic, payload) ∷ []) pins ≡ ok (new, write_pins new)
unfolding serve_told
serve_told-written topic payload pins new notices same = rw (same, append-nil (write_pins new)) refl

-- The output of the chip where the lock's relay hangs shows the lock: it is high if the lock is locked, turned
-- around once for an inverted lock and once for an inverted pin, whatever the chip showed before. (The pin has the
-- name that the lock has for it, the first pin with this name is meant, and the name is not empty.)
pub set_lock-chip :
    (C : Chip) (pins : Pins) (chip : C.State) (i : ℕ) (p : Pin) (s : Lock) (locked : Bool)
    → get_elem? pins i ≡ some p
    → IsNamed pins i p
    → s.extender_pin ≡ p.name
    → not_empty p.name ≡ true
    → (r : Pins × List Drive) × (serve_told (told (set_lock s locked)) pins ≡ ok r)
      × (get_elem? (C.outputs (drive_all C r.1 chip)) i ≡ some (xor (xor locked s.invert) p.invert))
set_lock-chip C pins chip i p s locked found named same given =
    let high = xor locked s.invert in
    let now : Pin = record p { value = high } in
    let new = set pins i now in
    let has_pin : not_empty s.extender_pin ≡ true = ap not_empty same ∙ given in
    let served : shift_receive pins (set_or_clear high) s.extender_pin
        ≡ ok (written (shift_status new) new) =
      ap (shift_receive pins (set_or_clear high)) same
      ∙ shift_receive-set_or_clear pins i p high found named in
    (
      (new, write_pins new),
      ap (λ ms. serve_told ms pins) (told-set_lock s locked has_pin)
          ∙ serve_told-written (set_or_clear high) s.extender_pin pins new (shift_status new)
              served,
      write_pins-outputs C new chip i now (get_elem?-set-some pins i now p found),
    )
