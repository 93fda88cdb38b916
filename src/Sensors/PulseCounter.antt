-- ===== src/Sensors/PulseCounter.antt =====
-- The counter of negative pulses at a pin (leaf_pulsecounter.h: `pulse`, `reset`, the interrupt
-- routines, `sample`, `loop`). Counters and times are `unsigned long`, of 32 bits; the stored log messages, the
-- published statistics and the attachment of the interrupts are left out.
pub mod Counting
pub mod Tests
use stacx.Prelude.{
  ℕ, ◌+◌, ◌-◌, ◌*◌, ◌%◌, ◌^◌, ◌==◌, Bool, true, false, not, ◌&&◌, ◌||◌, Option, none, some, [], ◌∷◌,
  List, if◌then◌else◌, ltb, leb,
}
use stacx.Prelude.Text.{Text, lit, text_eq}
use stacx.Prelude.Number.{to_int, show_nat}
use stacx.Prelude.Int.{ℤ, pos, negsuc, to_ulong, int_eq, int_leb}
use stacx.Prelude.Bits.{xor}

-- The settings that decide what counts. `noise_interval_us` and `debounce_interval_ms` are int.
pub record Filter : Type 0 where
  pub noise_interval_us : ℤ
  pub debounce_interval_ms : ℤ

pub record Counter : Type 0 where
  pub level : Bool
  pub count : ℕ
  pub interrupts : ℕ
  pub noises : ℕ
  pub misses : ℕ
  pub bounces : ℕ
  pub last_edge : ℕ
  pub prev_edge : ℕ
  pub last_fall : ℕ
  pub last_rise : ℕ
  pub pulse_width_sum : ℕ
  pub pulse_interval_sum : ℕ
  pub noise_width_sum : ℕ
  pub noise_interval_sum : ℕ
  pub bounce_interval_sum : ℕ
  pub last_count : ℕ
  pub last_count_time : ℕ
  pub rises : ℕ
  pub falls : ℕ

abbrev pub plus : ℕ → ℕ → ℕ
plus a b = (a + b) % 2 ^ 32

abbrev pub minus : ℕ → ℕ → ℕ
minus a b = (a + 2 ^ 32 - b) % 2 ^ 32

-- The level is kept, and so are the counts of the interrupt routines.
unfoldable pub reset_counter : Counter → Counter
reset_counter s = record s {
  count = 0;
  interrupts = 0;
  noises = 0;
  misses = 0;
  bounces = 0;
  last_edge = 0;
  prev_edge = 0;
  last_fall = 0;
  last_rise = 0;
  pulse_width_sum = 0;
  pulse_interval_sum = 0;
  noise_width_sum = 0;
  noise_interval_sum = 0;
  bounce_interval_sum = 0;
  last_count = 0;
  last_count_time = 0;
}

-- What the pin and the clocks read during one edge: micros(), millis() and the level. `inject` is the
-- argument of `pulse`, where -1 is no level.
pub record Edge : Type 0 where
  pub unow : ℕ
  pub now : ℕ
  pub reads : Bool
  pub inject : ℤ

abbrev injected : Edge → Bool
injected e = if int_eq e.inject (negsuc 0) then e.reads else not (int_eq e.inject (pos 0))

-- The short pulse is taken out of the history of edges.
unfoldable pub drop_noise : Edge → ℕ → Counter → Counter
drop_noise e width s = record s {
  noises = plus s.noises 1;
  last_edge = s.prev_edge;
  noise_width_sum = plus s.noise_width_sum width;
  noise_interval_sum = plus s.noise_interval_sum (minus s.last_edge s.prev_edge);
  level = injected e;
}

-- The other edge of the pulse was missed.
unfoldable pub miss_edge : Edge → Counter → Counter
miss_edge e s = record s {
  misses = plus s.misses 1;
  last_fall = if s.level then s.last_fall else e.unow;
  last_rise = if s.level then e.unow else s.last_rise;
}

-- The interval in microseconds times 1000 is compared with the milliseconds of the setting.
unfoldable pub fall : Filter → Edge → Counter → Counter
fall f e s =
    let interval = minus e.unow s.last_fall in
    if leb (interval * 1000 % 2 ^ 32) (to_ulong f.debounce_interval_ms)
    then record s {
      bounce_interval_sum = plus s.bounce_interval_sum interval;
      bounces = plus s.bounces 1;
    }
    else record s { last_fall = e.unow }

unfoldable pub rise : Edge → Counter → Counter
rise e s =
    let width = minus e.unow s.last_fall in
    let interval = minus s.last_fall s.last_rise in
    let risen : Counter = record s { last_rise = e.unow } in
    if s.last_fall == 0 || ltb 1000 width then risen else record risen {
      count = plus s.count 1;
      pulse_width_sum = plus s.pulse_width_sum width;
      pulse_interval_sum = plus s.pulse_interval_sum interval;
      last_count_time = e.now;
    }

-- An edge that is no noise.
unfoldable pub take_edge : Filter → Edge → Counter → Counter
unfolding miss_edge fall rise
take_edge f e s =
    let edged : Counter = record s { prev_edge = s.last_edge; last_edge = e.unow } in
    let turned : Counter = record edged { level = e.reads } in
    if xor e.reads s.level
    then (if e.reads then rise e turned else fall f e turned)
    else miss_edge e edged

unfoldable pub pulse : Filter → Edge → Counter → Counter
unfolding drop_noise take_edge
pulse f e s =
    let width = minus e.unow s.last_edge in
    let noise = to_ulong f.noise_interval_us in
    let seen : Counter = record s { interrupts = plus s.interrupts 1 } in
    if s.last_edge == 0
    then record seen { last_edge = e.unow; prev_edge = e.unow }
    else if ltb 0 noise && leb width noise
    then drop_noise e width seen
    else take_edge f e seen

-- counterRiseISR
unfoldable pub rise_interrupt : Counter → Counter
rise_interrupt s = record s { rises = plus s.rises 1; count = plus s.count 1 }

-- debounce_interval_ms*1000, compared as an unsigned number
abbrev pub debounce_us : ℤ → ℕ
debounce_us (pos n) = n * 1000 % 2 ^ 32
debounce_us (negsuc n) = (2 ^ 32 - (n + 1) * 1000 % 2 ^ 32) % 2 ^ 32

-- counterFallISR
unfoldable pub fall_interrupt : Filter → ℕ → Counter → Counter
fall_interrupt f unow s =
    if ltb (minus unow s.last_fall) (debounce_us f.debounce_interval_ms)
    then record s { bounces = plus s.bounces 1 }
    else record s { last_fall = unow; count = plus s.count 1; falls = plus s.falls 1 }

-- The levels between which an analog input keeps its state.
pub record Levels : Type 0 where
  pub analog_level_upper : ℤ
  pub analog_level_lower : ℤ

-- onPulseCounterTimer: the state of the input is read, and not changed.
unfoldable pub timer_interrupt : Levels → Bool → ℤ → Counter → Counter
timer_interrupt l analog_state raw s =
    let seen : Counter = record s { interrupts = plus s.interrupts 1 } in
    if not analog_state && int_leb l.analog_level_upper raw
    then record seen { count = plus s.count 1; rises = plus s.rises 1 }
    else if analog_state && int_leb raw l.analog_level_lower
    then record seen { count = plus s.count 1; falls = plus s.falls 1 }
    else seen

-- The loop publishes the count when it has grown.
unfoldable pub counter_loop : Counter → Counter × Option Text
counter_loop s =
    if ltb s.last_count s.count
    then (record s { last_count = s.count }, some (show_nat s.count))
    else (s, none)
