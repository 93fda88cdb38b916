-- ===== src/Extenders/Port/Syncing.antt =====
-- The chip shows what the leaf has on record (leaf_pinextender_pcf8574.h).
use stacx.Prelude.{
  map, ◌≡◌, refl, ap, Bool, true, false, Option, none, some, [], ◌∷◌, set, if◌then◌else◌,
  Bool-cases, Option-cases, inl, inr, subst,
}
use stacx.Prelude.Text.{Text}
use stacx.Prelude.Int.{ℤ}
use stacx.Prelude.Bits.{Bits, bits_of, bits_xor, bits_not, bit_at, strtoul_hex}
use stacx.Fault.{Result, ok, ◌>>=◌, >>=-eq-ok, ok-injective}
use stacx.Extenders.Port.{
  Port, Bus, PortServed, write_port, poll, port_status, same_bits, port_channel, shift_left,
  read_quiet, set_up_port,
}
use stacx.Extenders.Port.Messages.{
  change_bit, change_noted_bit, set_publish_bits, pass_on, set_bit, get_pin, get_pins, set_pins,
  poll_command, port_receive, write_and_report, port_quietly,
}

-- The latch of the chip after a byte has been sent, if one was.
abbrev pub latch : Option Bits → Bits → Bits
latch none d = d
latch (some pattern) d = pattern

-- The latch holds the outputs on record, inverted where they are inverted.
abbrev pub Shows : Port → Bits → Type 0
Shows p d = d ≡ bits_xor p.bits_out p.bits_inverted

poll-Shows : (bus : Bus) (p : Port) (d : Bits) → Shows p d → Shows (poll bus p).0 d
unfolding poll
poll-Shows bus p d h = elim (Option-cases bus.gives) [
  | inl late ↦ simp (poll, late) h
  | inr (byte, given) ↦
      let seen = same_bits (bits_xor (bits_of 8 byte) p.bits_inverted) p.bits_in in
      elim (Bool-cases seen) [
        | inl same ↦ simp (poll, given, same) h
        | inr new ↦ simp (poll, given, new) h
      ]
]

port_status-Shows :
    (shell : Bool) (p : Port) (d : Bits) → Shows p d → Shows (port_status shell p).0 d
unfolding port_status
port_status-Shows shell p d h = elim (Bool-cases p.found) [
  | inl found ↦ simp (port_status, found) h
  | inr missing ↦ simp (port_status, missing) h
]

if-Shows : (b : Bool) (p q : Port) (d : Bits) → Shows p d → Shows q d → Shows (if b then p else q) d
if-Shows true p q d hp hq = hp
if-Shows false p q d hp hq = hq

module _ (bus : Bus) (accepts : bus.accepts ≡ true) where
  write_port-Shows :
      (bits : Bits) (p : Port) (d : Bits)
      → Shows (write_port bus bits p).0 (latch (write_port bus bits p).1 d)
  unfolding write_port
  write_port-Shows bits p d = simp (write_port, accepts)

  write_and_report-Shows :
      (shell : Bool) (bits : Bits) (p : Port) (d : Bits)
      → Shows
          (write_and_report bus shell bits p).port
          (latch (write_and_report bus shell bits p).sent d)
  unfolding write_and_report
  write_and_report-Shows shell bits p d =
      let (after, sent) = write_port bus bits p in
      let shown = write_port-Shows bits p d in
      if-Shows after.quiet after (port_status shell after).0 (latch sent d) shown
        (port_status-Shows shell after (latch sent d) shown)

  -- What may be served: the chip shows the record afterwards.
  Keeps : Bits → Result PortServed → Type 0
  Keeps d r = (v : PortServed) → r ≡ ok v → Shows v.port (latch v.sent d)

  Keeps-ok : (d : Bits) (v : PortServed) → Shows v.port (latch v.sent d) → Keeps d (ok v)
  unfolding Keeps
  Keeps-ok d v h w same = subst (λ x. Shows x.port (latch x.sent d)) (ok-injective same) h

  Keeps-bind :
      {A : Type 0} (d : Bits) (first : Result A) (next : A → Result PortServed)
      → ((a : A) → Keeps d (next a))
      → Keeps d (first >>= next)
  unfolding Keeps
  Keeps-bind d first next all v same =
      let (a, found, final) = >>=-eq-ok first next same in all a v final

  Keeps-if :
      (d : Bits) (b : Bool) (x y : Result PortServed)
      → Keeps d x
      → Keeps d y
      → Keeps d (if b then x else y)
  Keeps-if d true x y hx hy = hx
  Keeps-if d false x y hx hy = hy

  Keeps-change_bit :
      (d : Bits) (shell : Bool) (p : Port) (bit : ℤ) (f : Bool → Bool)
      → Keeps d (change_bit bus shell p bit f)
  unfolding change_bit
  Keeps-change_bit d shell p bit f = Keeps-bind d (shift_left bit) _ (λ c.
      let bits = set p.bits_out c (f (bit_at p.bits_out c)) in
      let changed : Port = record p { bits_out = bits } in
      Keeps-ok d (write_and_report bus shell bits changed)
        (write_and_report-Shows shell bits changed d))

  Keeps-set_bit :
      (d : Bits) (p : Port) (bit : ℤ) (name : Text) (value : Bool)
      → Keeps d (set_bit bus p bit name value)
  unfolding set_bit
  Keeps-set_bit d p bit name value =
      Keeps-bind d (shift_left bit) _
        (λ c. Keeps-ok d _ (write_port-Shows (set p.bits_out c value) p d))

  Keeps-get_pin :
      (d : Bits) (p : Port) (payload : Text) → Shows p d → Keeps d (get_pin bus p payload)
  unfolding get_pin
  Keeps-get_pin d p payload h =
      Keeps-bind d (shift_left (port_channel (poll bus p).0 payload)) _
        (λ c. Keeps-ok d (port_quietly (poll bus p).0 _) (poll-Shows bus p d h))

  Keeps-get_pins : (d : Bits) (p : Port) → Shows p d → Keeps d (get_pins bus p)
  unfolding get_pins
  Keeps-get_pins d p h = Keeps-ok d (port_quietly (poll bus p).0 _) (poll-Shows bus p d h)

  Keeps-set_pins : (d : Bits) (p : Port) (payload : Text) → Keeps d (set_pins bus p payload)
  unfolding set_pins Keeps
  Keeps-set_pins d p payload v same =
      subst (λ x. Shows x.port (latch x.sent d)) (ok-injective same)
        (write_port-Shows (bits_of 8 (strtoul_hex payload)) p d)

  Keeps-change_noted_bit :
      (d : Bits) (shell : Bool) (p : Port) (bit : ℤ) (f : Bool → Bool)
      → Keeps d (change_noted_bit bus shell p bit f)
  unfolding change_noted_bit
  Keeps-change_noted_bit d shell p bit f =
      Keeps-bind d (read_quiet p bit) (λ q. change_bit bus shell p bit f)
        (λ q. Keeps-change_bit d shell p bit f)

  Keeps-poll_command :
      (d : Bits) (shell : Bool) (p : Port) → Shows p d → Keeps d (poll_command bus shell p)
  unfolding poll_command
  Keeps-poll_command d shell p h =
      Keeps-ok d (port_quietly (port_status shell (poll bus p).0).0 _)
        (port_status-Shows shell (poll bus p).0 d (poll-Shows bus p d h))

  Keeps-set_publish_bits :
      (d : Bits) (p : Port) (payload : Text) → Shows p d → Keeps d (set_publish_bits p payload)
  unfolding set_publish_bits Keeps
  Keeps-set_publish_bits d p payload h v same =
      subst (λ x. Shows x.port (latch x.sent d)) (ok-injective same) h

  Keeps-pass_on : (d : Bits) (p : Port) → Shows p d → Keeps d (pass_on p)
  unfolding pass_on Keeps
  Keeps-pass_on d p h v same = subst (λ x. Shows x.port (latch x.sent d)) (ok-injective same) h

  port_receive-Keeps :
      (shell : Bool) (p : Port) (d : Bits) (topic payload : Text)
      → Shows p d
      → Keeps d (port_receive bus shell p topic payload)
  unfolding port_receive
  port_receive-Keeps shell p d topic payload h =
      search
        (
          Keeps-if, Keeps-get_pin, Keeps-get_pins, Keeps-set_bit, Keeps-set_pins,
          Keeps-set_publish_bits, Keeps-change_bit, Keeps-change_noted_bit, Keeps-poll_command,
          Keeps-pass_on, h,
        )
        depth 14

-- While the bus takes every byte, and the latch of the chip holds the outputs on record, inverted where they are
-- inverted, it holds them after every message that the leaf serves without an undefined shift or access.
pub port_receive-Shows :
    (bus : Bus) (shell : Bool) (p : Port) (d : Bits) (topic payload : Text) (v : PortServed)
    → bus.accepts ≡ true
    → d ≡ bits_xor p.bits_out p.bits_inverted
    → port_receive bus shell p topic payload ≡ ok v
    → latch v.sent d ≡ bits_xor v.port.bits_out v.port.bits_inverted
unfolding Keeps
port_receive-Shows bus shell p d topic payload v accepts h same =
    port_receive-Keeps bus accepts shell p d topic payload h v same

bits_xor-bits_not : (xs : Bits) → bits_xor (bits_not xs) xs ≡ map (λ b. true) xs
bits_xor-bits_not [] = refl
bits_xor-bits_not (true ∷ xs) = ap (λ t. true ∷ t) (bits_xor-bits_not xs)
bits_xor-bits_not (false ∷ xs) = ap (λ t. true ∷ t) (bits_xor-bits_not xs)

-- If the bus takes the byte, the set-up drives every pin high, whichever pins are inverted, since the
-- outputs that it writes are the complement of the inversions, to which the inversions are applied once more.
set_up_port-high :
    (bus : Bus) (p : Port)
    → bus.accepts ≡ true
    → (set_up_port bus p).1 ≡ some (map (λ b. true) p.bits_inverted)
unfolding set_up_port write_port
set_up_port-high bus p accepts =
    simp (set_up_port, write_port, accepts) (ap some (bits_xor-bits_not p.bits_inverted))
