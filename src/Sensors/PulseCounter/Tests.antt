-- ===== src/Sensors/PulseCounter/Tests.antt =====
-- Examples of the pulse counter.
use stacx.Prelude.{ℕ, ◌≤◌, ◌≡◌, refl, Bool, true, false, some, [], ◌∷◌, List, arith}
use stacx.Prelude.Text.{lit}
use stacx.Prelude.Number.{show_nat}
use stacx.Prelude.Int.{pos, negsuc}
use stacx.Sensors.PulseCounter.{Filter, Counter, Edge, fall, counter_loop}
use stacx.Sensors.PulseCounter.Counting.{tally, pulses, pulses-tally}

abbrev filter : Filter
filter = record { noise_interval_us = pos 5; debounce_interval_ms = pos 10 }

abbrev idle : Counter
idle = record {
  level = true;
  count = 0;
  interrupts = 0;
  noises = 0;
  misses = 0;
  bounces = 0;
  last_edge = 1000;
  prev_edge = 1000;
  last_fall = 500;
  last_rise = 1000;
  pulse_width_sum = 0;
  pulse_interval_sum = 0;
  noise_width_sum = 0;
  noise_interval_sum = 0;
  bounce_interval_sum = 0;
  last_count = 0;
  last_count_time = 0;
  rises = 0;
  falls = 0;
}

abbrev edge : ℕ → Bool → Edge
edge unow reads = record { unow = unow; now = 2; reads = reads; inject = negsuc 0 }

abbrev edges : List Edge
edges = edge 2000 false ∷ edge 2300 true ∷ edge 2302 false ∷ edge 3000 true ∷ edge 4000 true ∷ []

counts : (pulses filter edges idle).count ≡ 2
unfolding pulses
counts = refl

misses_one : (pulses filter edges idle).misses ≡ 1
unfolding pulses
misses_one = refl

pulses-tally_example : tally (pulses filter edges idle) ≤ (pulses filter edges idle).interrupts
pulses-tally_example = pulses-tally filter edges idle (omega arith) (omega arith)

-- Falls that are 1 us apart are not within the 10 ms of the setting.
no_bounce : (fall filter (edge 501 false) idle).bounces ≡ 0
unfolding fall
no_bounce = refl

reported : (counter_loop (record idle { count = 12 })).1 ≡ some (lit "12")
unfolding counter_loop show_nat
reported = refl
