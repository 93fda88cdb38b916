-- ===== src/Extenders/Expander/Agreement.antt =====
-- The registers of the chip are those on record (leaf_pinextender_mcp23107.h).
use stacx.Prelude.{
  ℕ, ◌≡◌, refl, sym, ◌∙◌, ap, subst, Bool, true, false, ◌&&◌, Option, none, some, [], ◌∷◌, List,
  set, if◌then◌else◌,
}
use stacx.Prelude.Text.{Text}
use stacx.Prelude.Int.{ℤ}
use stacx.Prelude.Bits.{Bits, bits_of, bit_at}
use stacx.Fault.{Result, ok, ◌>>=◌, >>=-eq-ok, ok-injective}
use stacx.Extenders.Port.{shift_left, same_bits}
use stacx.Extenders.Expander.{
  Expander, WordBus, WordSent, Register, gpio, iodir, iopol, gppu, ExpanderServed, keep_word,
  take_word, joined, status_notices, write_regpair, poll_expander, expander_status, write_word,
  write_only, change_output_pin, set_only_pin, get_expander_pin, pass_message, expander_receive,
}

-- The registers of the chip for the outputs, the directions and the pull-ups.
pub record Chip : Type 0 where
  pub gpio_bits : Bits
  pub iodir_bits : Bits
  pub gppu_bits : Bits

abbrev pub apply : WordSent → Chip → Chip
apply none d = d
apply (some (gpio, bits)) d = record d { gpio_bits = bits }
apply (some (iodir, bits)) d = record d { iodir_bits = bits }
apply (some (gppu, bits)) d = record d { gppu_bits = bits }
apply (some (iopol, bits)) d = d

abbrev pub record_of : Expander → Chip
record_of p = record { gpio_bits = p.bits_out; iodir_bits = p.bits_dir; gppu_bits = p.bits_pullup }

if-record :
    {A : Type 0} (b : Bool) (x y : Expander × A) (c : Chip)
    → record_of x.0 ≡ c
    → record_of y.0 ≡ c
    → record_of (if b then x else y).0 ≡ c
if-record true x y c hx hy = hx
if-record false x y c hx hy = hy

take_word-record :
    (low high : Option ℕ) (p : Expander) → record_of (take_word low high p).0 ≡ record_of p
take_word-record none high p = refl
take_word-record (some low) none p = refl
take_word-record (some low) (some high) p =
    let bits = joined low high in
    if-record (same_bits bits p.bits_in) (p, false) (record p { bits_in = bits }, true)
      (record_of p) refl refl

poll-record : (bus : WordBus) (p : Expander) → record_of (poll_expander bus p).0 ≡ record_of p
unfolding poll_expander
poll-record bus p =
    if-record p.found (take_word bus.gives_low bus.gives_high p) (p, false) (record_of p)
      (take_word-record bus.gives_low bus.gives_high p) refl

expander_status-record :
    (bus : WordBus) (shell : Bool) (p : Expander)
    → record_of (expander_status bus shell p).0 ≡ record_of p
unfolding expander_status
expander_status-record bus shell p =
    let polled = (poll_expander bus p).0 in
    if-record p.found
      (record polled { last_input_state = polled.bits_in }, status_notices shell polled) (p, [])
      (record_of p) (poll-record bus p) refl

if-write :
    (b : Bool) (bits : Bits) (reg : Register) (p : Expander) (d : Chip)
    → d ≡ record_of p
    → let written : Expander × (WordSent × Bool) =
        if b then (keep_word reg bits p, (some (reg, bits), false)) else (p, (none, true)) in
      apply written.1.0 d ≡ record_of written.0
if-write false bits reg p d h = h
if-write true bits gpio p d h = ap (λ (c : Chip). record c { gpio_bits = bits }) h
if-write true bits iodir p d h = ap (λ (c : Chip). record c { iodir_bits = bits }) h
if-write true bits gppu p d h = ap (λ (c : Chip). record c { gppu_bits = bits }) h
if-write true bits iopol p d h = h

write_regpair-record :
    (bus : WordBus) (bits : Bits) (reg : Register) (p : Expander) (d : Chip)
    → d ≡ record_of p
    → apply (write_regpair bus bits reg p).1.0 d ≡ record_of (write_regpair bus bits reg p).0
unfolding write_regpair
write_regpair-record bus bits reg p d h = if-write (p.found && bus.takes) bits reg p d h

-- What may be served from a state in which the chip has the record: it has it afterwards.
Keeps : Chip → Result ExpanderServed → Type 0
Keeps d r = (v : ExpanderServed) → r ≡ ok v → apply v.sent d ≡ record_of v.expander

Keeps-ok : (d : Chip) (v : ExpanderServed) → apply v.sent d ≡ record_of v.expander → Keeps d (ok v)
unfolding Keeps
Keeps-ok d v h w same = subst (λ x. apply x.sent d ≡ record_of x.expander) (ok-injective same) h

Keeps-shift :
    (d : Chip) (bit : ℤ) (next : ℕ → Result ExpanderServed)
    → ((c : ℕ) → Keeps d (next c))
    → Keeps d (shift_left bit >>= next)
unfolding Keeps
Keeps-shift d bit next all v same =
    let (c, found, final) = >>=-eq-ok (shift_left bit) next same in all c v final

Keeps-if :
    (d : Chip) (b : Bool) (x y : Result ExpanderServed)
    → Keeps d x
    → Keeps d y
    → Keeps d (if b then x else y)
Keeps-if d true x y hx hy = hx
Keeps-if d false x y hx hy = hy

module _ (bus : WordBus) (d : Chip) (p : Expander) (h : d ≡ record_of p) where
  Keeps-write_only : (bits : Bits) (reg : Register) → Keeps d (write_only bus bits reg p)
  unfolding write_only write_word
  Keeps-write_only bits reg =
      Keeps-ok d (write_word bus bits reg p) (write_regpair-record bus bits reg p d h)

  Keeps-set_only_pin : (bit : ℤ) (val : Bool) → Keeps d (set_only_pin bus p bit val)
  unfolding set_only_pin
  Keeps-set_only_pin bit val =
      Keeps-shift d bit _ (λ c. Keeps-write_only (set (bits_of 16 0) c val) gpio)

  Keeps-change_output_pin :
      (shell : Bool) (bit : ℤ) (f : Bool → Bool) → Keeps d (change_output_pin bus shell p bit f)
  unfolding change_output_pin
  Keeps-change_output_pin shell bit f = Keeps-shift d bit _ (λ c.
      let bits = set p.bits_out c (f (bit_at p.bits_out c)) in
      let after = (write_regpair bus bits gpio p).0 in
      Keeps-ok d _
        (write_regpair-record bus bits gpio p d h ∙ sym (expander_status-record bus shell after)))

  Keeps-get_expander_pin : (bit : ℤ) (payload : Text) → Keeps d (get_expander_pin bus p bit payload)
  unfolding get_expander_pin
  Keeps-get_expander_pin bit payload =
      Keeps-shift d bit _ (λ c. Keeps-ok d _ (h ∙ sym (poll-record bus p)))

  Keeps-pass_message : Keeps d (pass_message p)
  unfolding pass_message
  Keeps-pass_message = Keeps-ok d _ h

  expander_receive-Keeps :
      (shell : Bool) (topic payload : Text) → Keeps d (expander_receive bus shell topic payload p)
  unfolding expander_receive
  expander_receive-Keeps shell topic payload =
      search
        (
          Keeps-if, Keeps-write_only, Keeps-set_only_pin, Keeps-change_output_pin,
          Keeps-get_expander_pin, Keeps-pass_message,
        )
        depth 12

-- A message, with what the bus answers while it is served.
pub record Delivered : Type 0 where
  pub bus : WordBus
  pub shell : Bool
  pub topic : Text
  pub payload : Text

-- Messages one after the other, and the chip meanwhile.
unfoldable pub receive_all : List Delivered → Expander → Chip → Result (Expander × Chip)
unfolding expander_receive
receive_all [] p d = ok (p, d)
receive_all (m ∷ ms) p d =
    expander_receive m.bus m.shell m.topic m.payload p
    >>= (λ v. receive_all ms v.expander (apply v.sent d))

-- If the outputs, the directions and the pull-ups on record are those in the registers of the chip, they are so
-- after any sequence of messages that are served without an undefined shift, whichever writes the bus takes
-- or refuses.
pub receive_all-record :
    (ms : List Delivered) (p : Expander) (d : Chip) (q : Expander) (e : Chip)
    → d ≡ record_of p
    → receive_all ms p d ≡ ok (q, e)
    → e ≡ record_of q
unfolding receive_all Keeps
receive_all-record [] p d q e h same =
    let ends = ok-injective same in sym (ap (λ s. s.1) ends) ∙ h ∙ ap (λ s. record_of s.0) ends
receive_all-record (m ∷ ms) p d q e h same =
    let (v, served, rest) =
      >>=-eq-ok (expander_receive m.bus m.shell m.topic m.payload p)
        (λ v. receive_all ms v.expander (apply v.sent d)) same in
    receive_all-record ms v.expander (apply v.sent d) q e
      (expander_receive-Keeps m.bus d p h m.shell m.topic m.payload v served) rest
