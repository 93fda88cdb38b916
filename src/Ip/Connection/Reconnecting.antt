-- ===== src/Ip/Connection/Reconnecting.antt =====
-- Attempts to reconnect over time (abstract_ip.h).
use stacx.Prelude.{
  ℕ, ◌+◌, ◌/◌, ◌%◌, ◌^◌, ◌==◌, ◌≤◌, ◌<◌, ◌≡◌, refl, Bool, true, false, ◌&&◌, ◌||◌, [], ◌∷◌, List,
  if◌then◌else◌, subst, ap, ◌∙◌, ltb, leb, Bool-cases, inl, inr, arith,
}
use stacx.Prelude.Int.{ℤ, pos, negsuc, to_ulong}
use stacx.Ip.Connection.{
  announce_connect, announce_disconnect, IpSettings, IpStep, Ip, ip_timer_fires,
  ip_set_reconnect_due, ip_connect, ip_disconnect, wait_for, ip_schedule_reconnect, ip_on_connect,
  ip_on_disconnect, await_network, drop_connection, ip_retry, ip_notify, ip_report, ip_loop,
  attempts_exceeded, is_primary_comms,
}
use stacx.Ip.Connection.Announcing.{
  Event, link_up, link_down, round, ticker, dial, hang_up, step, run,
}

abbrev pub flag : Bool → ℕ
flag b = if b then 1 else 0

-- The attempts made since the last connection, with those that are on their way.
abbrev pub committed : Ip → ℕ
committed s = s.ip_connect_attempt_count + (flag s.ip_reconnect_due + flag s.timer_active)

-- The events of a list, but for the command that connects.
unfoldable pub by_itself : List Event → Bool
by_itself [] = true
by_itself (dial ∷ es) = false
by_itself (e ∷ es) = by_itself es

module _ (c : IpSettings) where
  -- The announcement changes what has been told, and the report when it was made.
  ip_notify-keeps :
      (s : Ip) → (told : Bool) × ((ip_notify c s).0 ≡ record s { ip_connect_notified = told })
  unfolding ip_notify
  ip_notify-keeps s = by_tests c.ip_do_notify s.ip_connected s.ip_connect_notified
    where
      known : Ip
      known = record s { ip_connect_notified = s.ip_connected }

      settled : Bool → Bool → Bool → IpStep
      settled on up told =
          if on
          then (if up
              then (if told then (s, []) else (known, announce_connect ∷ []))
              else (if told then (known, announce_disconnect ∷ []) else (s, [])))
          else (s, [])

      by_tests :
          (on up told : Bool)
          → (b : Bool) × ((settled on up told).0 ≡ record s { ip_connect_notified = b })
      by_tests true true true = (s.ip_connect_notified, refl)
      by_tests true true false = (s.ip_connected, refl)
      by_tests true false true = (s.ip_connected, refl)
      by_tests true false false = (s.ip_connect_notified, refl)
      by_tests false up told = (s.ip_connect_notified, refl)

  ip_report-keeps :
      (now : ℕ) (s : Ip)
      → (sec : ℕ) × ((ip_report c now s).0 ≡ record s { ip_report_last_sec = sec })
  unfolding ip_report
  ip_report-keeps now s =
      let due = (s.ip_report_last_sec + c.ip_report_interval_sec) % 2 ^ 32 in
      elim (Bool-cases (ltb 0 c.ip_report_interval_sec && leb due (now / 1000))) [
        | inl e ↦ (now / 1000, simp (ip_report, e))
        | inr e ↦ (s.ip_report_last_sec, simp (ip_report, e))
      ]

module _ (c : IpSettings) (m : ℕ) (limit : c.ip_connect_attempt_max ≡ pos m) where
  wait_for-committed :
      (s : Ip) (interval : ℤ)
      → 0 < m
      → committed s ≤ m + 1
      → committed (wait_for c s interval).0 ≤ m + 1
  unfolding ip_set_reconnect_due
  wait_for-committed s (negsuc n) some_left h = h
  wait_for-committed s (pos n) some_left h =
      elim (Bool-cases (attempts_exceeded c.ip_connect_attempt_max s.ip_connect_attempt_count)) [
        | inl exceeded ↦ simp (wait_for, exceeded) h
        | inr left ↦
            let few : s.ip_connect_attempt_count < m = ground (
              arith,
              subst (λ x. attempts_exceeded x s.ip_connect_attempt_count ≡ false) limit left,
            ) in
            elim (Bool-cases (n == 0)) [
              | inl immediate ↦ simp (wait_for, left, immediate) (ground arith)
              | inr delayed ↦ elim (Bool-cases c.has_ticker) [
                | inl timer ↦ simp (wait_for, left, delayed, timer) (ground arith)
                | inr without ↦ simp (wait_for, left, delayed, without) h
              ]
            ]
      ]

  schedule-committed :
      (s : Ip) → 0 < m → committed s ≤ m + 1 → committed (ip_schedule_reconnect c s).0 ≤ m + 1
  unfolding ip_schedule_reconnect
  schedule-committed s some_left h = elim (Bool-cases c.ip_reconnect) [
    | inl on ↦
        simp (ip_schedule_reconnect, on)
          (wait_for-committed s c.ip_reconnect_interval_sec some_left h)
    | inr off ↦ simp (ip_schedule_reconnect, off) h
  ]

  await_network-committed :
      (s : Ip) → 0 < m → committed s ≤ m + 1 → committed (await_network c s).0 ≤ m + 1
  unfolding await_network
  await_network-committed s some_left h = elim (Bool-cases (is_primary_comms c)) [
    | inr other ↦ simp (await_network, other) h
    | inl primary ↦ elim (Bool-cases c.ip_autoconnect) [
      | inr manual ↦ simp (await_network, primary, manual) h
      | inl auto ↦ simp (await_network, primary, auto) (schedule-committed s some_left h)
    ]
  ]

  ip_disconnect-committed :
      (retry : Bool) (s : Ip)
      → 0 < m
      → committed s ≤ m + 1
      → committed (ip_disconnect c retry s).0 ≤ m + 1
  unfolding ip_disconnect
  ip_disconnect-committed true s some_left h = schedule-committed s some_left h
  ip_disconnect-committed false s some_left h = elim (Bool-cases c.has_ticker) [
    | inl timer ↦ simp timer (ground arith)
    | inr without ↦ simp without h
  ]

  ip_retry-committed : (now : ℕ) (s : Ip) → committed (ip_retry c ip_connect now s).0 ≤ committed s
  unfolding ip_retry ip_connect
  ip_retry-committed now s =
      let ready = leb (to_ulong c.ip_delay_connect) (now / 1000) in
      elim (Bool-cases (s.ip_reconnect_due && ready)) [
        | inr idle ↦ simp (ip_retry, idle) (omega arith)
        | inl due ↦
            let flagged : s.ip_reconnect_due ≡ true = ground (arith, due) in
            elim (Bool-cases s.ip_connected) [
              | inl up ↦ simp (ip_retry, due, up) (ground arith)
              | inr down ↦ simp (ip_retry, due, down) (ground (arith, flagged))
            ]
      ]

  ip_notify-committed : (s : Ip) → committed (ip_notify c s).0 ≡ committed s
  ip_notify-committed s = ap committed (ip_notify-keeps c s).1

  ip_report-committed : (now : ℕ) (s : Ip) → committed (ip_report c now s).0 ≡ committed s
  ip_report-committed now s = ap committed (ip_report-keeps c now s).1

  step-committed :
      (s : Ip) (e : Event)
      → 0 < m
      → by_itself (e ∷ []) ≡ true
      → committed s ≤ m + 1
      → committed (step c s e).0 ≤ m + 1
  unfolding step ip_on_connect ip_on_disconnect ip_loop ip_timer_fires ip_set_reconnect_due
      by_itself
  step-committed s (link_up now) some_left alone h = ground arith
  step-committed s (link_down now) some_left alone h = await_network-committed s some_left h
  step-committed s (round now) some_left alone h =
      let tried = (ip_retry c ip_connect now s).0 in
      let told = (ip_notify c tried).0 in
      omega
        (arith, ip_report-committed now told, ip_notify-committed tried, ip_retry-committed now s)
  step-committed s ticker some_left alone h = elim (Bool-cases s.timer_active) [
    | inl armed ↦ simp armed (ground arith)
    | inr idle ↦ simp idle (ground arith)
  ]
  step-committed s dial some_left alone h = ground arith
  step-committed s (hang_up retry) some_left alone h = ip_disconnect-committed retry s some_left h

  by_itself-step :
      (e : Event) (es : List Event)
      → by_itself (e ∷ es) ≡ true
      → (by_itself (e ∷ []) ≡ true) × (by_itself es ≡ true)
  unfolding by_itself
  by_itself-step (link_up now) es h = (refl, h)
  by_itself-step (link_down now) es h = (refl, h)
  by_itself-step (round now) es h = (refl, h)
  by_itself-step ticker es h = (refl, h)
  by_itself-step dial es h = ground arith
  by_itself-step (hang_up retry) es h = (refl, h)

  -- A limit m above zero on the attempts holds, but for one: with at most m + 1 attempts made or on their way
  -- at first, whatever happens then apart from the command that connects never makes the attempts since the last
  -- connection more than m + 1.
  pub run-committed :
      (s : Ip) (es : List Event)
      → 0 < m
      → by_itself es ≡ true
      → committed s ≤ m + 1
      → (run c s es).0.ip_connect_attempt_count ≤ m + 1
  unfolding run
  run-committed s [] some_left alone h = omega arith
  run-committed s (e ∷ es) some_left alone h =
      let (first, others) = by_itself-step e es alone in
      run-committed (step c s e).0 es some_left others (step-committed s e some_left first h)

-- A transport that connects by itself, and may.
pub record Retries (c : IpSettings) (s : Ip) : Type 0 where
  pub primary : is_primary_comms c ≡ true
  pub autoconnects : c.ip_autoconnect ≡ true
  pub reconnects : c.ip_reconnect ≡ true
  pub interval : ℕ
  pub waits : c.ip_reconnect_interval_sec ≡ pos interval
  pub can_wait : (c.has_ticker || interval == 0) ≡ true
  pub not_exceeded : attempts_exceeded c.ip_connect_attempt_max s.ip_connect_attempt_count ≡ false

-- A retry is due, or the timer runs; `n` attempts have been made and the network is down.
IsPending : ℕ → Ip → Type 0
IsPending n s =
    ((s.ip_reconnect_due || s.timer_active) ≡ true)
    × (s.ip_connect_attempt_count ≡ n)
    × (s.ip_connected ≡ false)

module _ (c : IpSettings) where
  await_network-IsPending :
      (now : ℕ) (s : Ip)
      → Retries c s
      → IsPending s.ip_connect_attempt_count (drop_connection now (await_network c s).0).0
  unfolding await_network ip_schedule_reconnect ip_set_reconnect_due IsPending
  await_network-IsPending now s r = elim (Bool-cases (r.interval == 0)) [
    | inl immediate ↦
        simp
          (
            await_network, r.primary, r.autoconnects, ip_schedule_reconnect, r.reconnects, r.waits,
            wait_for, r.not_exceeded, immediate,
          )
          (refl, refl, refl)
    | inr delayed ↦
        let ticks : c.has_ticker ≡ true = ground (arith, r.can_wait) in
        simp
          (
            await_network, r.primary, r.autoconnects, ip_schedule_reconnect, r.reconnects, r.waits,
            wait_for, r.not_exceeded, delayed, ticks,
          )
          (ground arith, refl, refl)
  ]

  ticker-due :
      (n : ℕ) (s : Ip)
      → IsPending n s
      → ((step c s ticker).0.ip_reconnect_due ≡ true)
        × ((step c s ticker).0.ip_connect_attempt_count ≡ n)
        × ((step c s ticker).0.ip_connected ≡ false)
  unfolding step ip_timer_fires ip_set_reconnect_due IsPending
  ticker-due n s (pending, attempts, down) = elim (Bool-cases s.timer_active) [
    | inl armed ↦ simp armed (refl, attempts, down)
    | inr idle ↦ simp idle (ground arith, attempts, down)
  ]

  round-attempts :
      (now : ℕ) (s : Ip)
      → leb (to_ulong c.ip_delay_connect) (now / 1000) ≡ true
      → s.ip_reconnect_due ≡ true
      → s.ip_connected ≡ false
      → (step c s (round now)).0.ip_connect_attempt_count ≡ s.ip_connect_attempt_count + 1
  unfolding step ip_loop
  round-attempts now s ready due down =
      ap (λ d. d.ip_connect_attempt_count)
        (ip_report-keeps c now (ip_notify c (ip_retry c ip_connect now s).0).0).1
      ∙ ap (λ d. d.ip_connect_attempt_count) (ip_notify-keeps c (ip_retry c ip_connect now s).0).1
      ∙ tried
    where
      tried :
          (ip_retry c ip_connect now s).0.ip_connect_attempt_count ≡ s.ip_connect_attempt_count + 1
      tried = simp (ip_retry, ready, due, down, ip_connect)

  -- The primary transport, which connects by itself and reconnects, with a timer or no interval to wait for and
  -- attempts left, attempts to connect again once the connection is lost: in the round of the loop after the
  -- timer, if the delay after the start is over by then.
  pub run-Retries :
      (s : Ip) (now later : ℕ)
      → Retries c s
      → leb (to_ulong c.ip_delay_connect) (later / 1000) ≡ true
      → (run c s (link_down now ∷ ticker ∷ round later ∷ [])).0.ip_connect_attempt_count
        ≡ s.ip_connect_attempt_count + 1
  unfolding run step ip_on_disconnect
  run-Retries s now later r ready =
      let pending = await_network-IsPending now s r in
      let lost = (step c s (link_down now)).0 in
      let (due, attempts, down) = ticker-due s.ip_connect_attempt_count lost pending in
      round-attempts later (step c lost ticker).0 ready due down ∙ ap (λ n. n + 1) attempts
