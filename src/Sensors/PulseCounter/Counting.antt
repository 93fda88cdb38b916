-- ===== src/Sensors/PulseCounter/Counting.antt =====
-- What the counter counts over a series of edges (leaf_pulsecounter.h: `pulse`).
use stacx.Prelude.{
  ℕ, ◌+◌, ◌*◌, ◌%◌, ◌^◌, ◌==◌, ◌≤◌, ◌<◌, ◌≡◌, refl, Bool, true, false, ◌&&◌, ◌||◌, [], ◌∷◌, List,
  length, if◌then◌else◌, ltb, leb, Bool-cases, inl, inr, arith,
}
use stacx.Prelude.Int.{to_ulong}
use stacx.Prelude.Bits.{xor}
use stacx.Sensors.PulseCounter.{
  Filter, Counter, Edge, plus, minus, drop_noise, miss_edge, fall, rise, take_edge, pulse,
}

-- The edges that the counter has accounted for.
abbrev pub tally : Counter → ℕ
tally s = s.count + (s.noises + (s.misses + s.bounces))

-- One edge is accounted for at most once, as one more interrupt.
Accounts : Counter → Counter → Type 0
Accounts s t = (tally t ≤ tally s + 1) × (t.interrupts ≡ s.interrupts)

drop_noise-Accounts : (e : Edge) (width : ℕ) (s : Counter) → Accounts s (drop_noise e width s)
unfolding drop_noise Accounts
drop_noise-Accounts e width s = (omega arith, refl)

miss_edge-Accounts : (e : Edge) (s : Counter) → Accounts s (miss_edge e s)
unfolding miss_edge Accounts
miss_edge-Accounts e s = (omega arith, refl)

fall-Accounts : (f : Filter) (e : Edge) (s : Counter) → Accounts s (fall f e s)
unfolding fall Accounts
fall-Accounts f e s =
    let close = leb (minus e.unow s.last_fall * 1000 % 2 ^ 32) (to_ulong f.debounce_interval_ms) in
    elim (Bool-cases close) [
      | inl bounce ↦ simp (fall, bounce) (omega arith, refl)
      | inr apart ↦ simp (fall, apart) (omega arith, refl)
    ]

rise-Accounts : (e : Edge) (s : Counter) → Accounts s (rise e s)
unfolding rise Accounts
rise-Accounts e s = elim (Bool-cases (s.last_fall == 0 || ltb 1000 (minus e.unow s.last_fall))) [
  | inl skipped ↦ simp (rise, skipped) (omega arith, refl)
  | inr counted ↦ simp (rise, counted) (omega arith, refl)
]

if-Accounts :
    (b : Bool) (s x y : Counter) → Accounts s x → Accounts s y → Accounts s (if b then x else y)
if-Accounts true s x y hx hy = hx
if-Accounts false s x y hx hy = hy

-- The level is the last thing that the edge changes.
take_edge-Accounts : (f : Filter) (e : Edge) (s : Counter) → Accounts s (take_edge f e s)
unfolding take_edge Accounts
take_edge-Accounts f e s =
    let edged : Counter = record s { prev_edge = s.last_edge; last_edge = e.unow } in
    let turned : Counter = record edged { level = e.reads } in
    if-Accounts (xor e.reads s.level) s (if e.reads then rise e turned else fall f e turned)
      (miss_edge e edged)
      (if-Accounts e.reads s (rise e turned) (fall f e turned) (rise-Accounts e turned)
        (fall-Accounts f e turned))
      (miss_edge-Accounts e edged)

pulse-interrupts :
    (f : Filter) (e : Edge) (s : Counter)
    → (tally (pulse f e s) ≤ tally s + 1) × ((pulse f e s).interrupts ≡ plus s.interrupts 1)
unfolding pulse Accounts
pulse-interrupts f e s =
    let width = minus e.unow s.last_edge in
    let noise = to_ulong f.noise_interval_us in
    let seen : Counter = record s { interrupts = plus s.interrupts 1 } in
    let first : Counter = record seen { last_edge = e.unow; prev_edge = e.unow } in
    let other =
      if ltb 0 noise && leb width noise then drop_noise e width seen else take_edge f e seen in
    if-Accounts (s.last_edge == 0) seen first other (omega arith, refl)
      (if-Accounts (ltb 0 noise && leb width noise) seen (drop_noise e width seen)
        (take_edge f e seen) (drop_noise-Accounts e width seen) (take_edge-Accounts f e seen))

-- A series of edges.
unfoldable pub pulses : Filter → List Edge → Counter → Counter
unfolding pulse
pulses f [] s = s
pulses f (e ∷ es) s = pulses f es (pulse f e s)

-- No edge is accounted for twice: as long as the interrupts do not overflow, the pulses counted, the noises, the
-- misses and the bounces together are at most as many as the interrupts, after any series of edges.
pub pulses-tally :
    (f : Filter) (es : List Edge) (s : Counter)
    → s.interrupts + length es < 2 ^ 32
    → s.count + (s.noises + (s.misses + s.bounces)) ≤ s.interrupts
    → tally (pulses f es s) ≤ (pulses f es s).interrupts
unfolding pulses
pulses-tally f [] s room h = h
pulses-tally f (e ∷ es) s room h =
    let (once, counted) = pulse-interrupts f e s in
    pulses-tally f es (pulse f e s) (omega (arith, counted)) (omega (arith, once, counted))
