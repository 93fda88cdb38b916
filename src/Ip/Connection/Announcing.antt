-- ===== src/Ip/Connection/Announcing.antt =====
-- What the other leaves hear of the connection over time (abstract_ip.h).
use stacx.Prelude.{
  ℕ, ◌≡◌, refl, sym, ◌∙◌, ap, Bool, true, false, Option, none, some, [], ◌∷◌, ◌++◌, List,
  if◌then◌else◌, Bool-cases, inl, inr, arith, ltb, leb, ◌&&◌, ◌+◌, ◌/◌, ◌%◌, ◌^◌, ◌==◌,
}
use stacx.Prelude.Int.{ℤ, pos, negsuc, to_ulong}
use stacx.Ip.Connection.{
  IpSettings, Ip, IpEffect, IpStep, comms, announce_connect, announce_disconnect, announce_abort,
  report_status, then_do, ip_timer_fires, ip_set_reconnect_due, ip_connect, ip_disconnect, wait_for,
  ip_schedule_reconnect, ip_on_connect, ip_on_disconnect, await_network, drop_connection, ip_retry,
  ip_notify, ip_report, ip_loop, attempts_exceeded, is_primary_comms,
}

-- What happens to the transport: the link comes up or goes down, a round of the loop, the timer, and
-- the commands that connect and disconnect.
pub data Event : Type 0 where
  link_up link_down round : ℕ → Event
  ticker dial : Event
  hang_up : Bool → Event

unfoldable pub step : IpSettings → Ip → Event → IpStep
unfolding ip_on_connect ip_on_disconnect ip_loop ip_timer_fires ip_connect ip_disconnect
step c s (link_up now) = ip_on_connect now s
step c s (link_down now) = ip_on_disconnect c now s
step c s (round now) = ip_loop c ip_connect now s
step c s ticker = if s.timer_active then (ip_timer_fires s, []) else (s, [])
step c s dial = ip_connect s
step c s (hang_up retry) = ip_disconnect c retry s

unfoldable pub run : IpSettings → Ip → List Event → IpStep
unfolding step
run c s [] = (s, [])
run c s (e ∷ es) = then_do (step c s e) (λ d. run c d es)

-- Who listens knows whether the network is up; news of what it knows already is not expected.
unfoldable pub hear : Bool → List IpEffect → Option Bool
hear up [] = some up
hear up (comms state ∷ es) = hear up es
hear up (announce_connect ∷ es) = let rest = hear true es in if up then none else rest
hear up (announce_disconnect ∷ es) = let rest = hear false es in if up then rest else none
hear up (announce_abort ∷ es) = hear up es
hear up (report_status ∷ es) = hear up es

hear-append :
    (up now : Bool) (es more : List IpEffect)
    → hear up es ≡ some now
    → hear up (es ++ more) ≡ hear now more
unfolding hear
hear-append up now [] more h = ground arith
hear-append up now (comms state ∷ es) more h = hear-append up now es more h
hear-append up now (announce_connect ∷ es) more h = ground (arith, hear-append true now es more)
hear-append up now (announce_disconnect ∷ es) more h = ground (arith, hear-append false now es more)
hear-append up now (announce_abort ∷ es) more h = hear-append up now es more h
hear-append up now (report_status ∷ es) more h = hear-append up now es more h

-- What a step tells is what it notes as told.
IsHeard : Ip → IpStep → Type 0
IsHeard s done = hear s.ip_connect_notified done.1 ≡ some done.0.ip_connect_notified

then_do-IsHeard :
    (s : Ip) (first : IpStep) (next : Ip → IpStep)
    → IsHeard s first
    → IsHeard first.0 (next first.0)
    → IsHeard s (then_do first next)
unfolding IsHeard
then_do-IsHeard s first next h after =
    hear-append s.ip_connect_notified first.0.ip_connect_notified first.1 (next first.0).1 h ∙ after

module _ (c : IpSettings) where
  wait_for-IsHeard : (s : Ip) (interval : ℤ) → IsHeard s (wait_for c s interval)
  unfolding IsHeard hear ip_set_reconnect_due
  wait_for-IsHeard s (negsuc n) = refl
  wait_for-IsHeard s (pos n) =
      elim (Bool-cases (attempts_exceeded c.ip_connect_attempt_max s.ip_connect_attempt_count)) [
        | inl exceeded ↦ simp (wait_for, exceeded)
        | inr left ↦ elim (Bool-cases (n == 0)) [
          | inl immediate ↦ simp (wait_for, left, immediate)
          | inr delayed ↦ elim (Bool-cases c.has_ticker) [
            | inl timer ↦ simp (wait_for, left, delayed, timer)
            | inr without ↦ simp (wait_for, left, delayed, without)
          ]
        ]
      ]

  schedule-IsHeard : (s : Ip) → IsHeard s (ip_schedule_reconnect c s)
  unfolding ip_schedule_reconnect IsHeard hear
  schedule-IsHeard s = elim (Bool-cases c.ip_reconnect) [
    | inl on ↦ simp (ip_schedule_reconnect, on) (wait_for-IsHeard s c.ip_reconnect_interval_sec)
    | inr off ↦ simp (ip_schedule_reconnect, off)
  ]

  await_network-IsHeard : (s : Ip) → IsHeard s (await_network c s)
  unfolding await_network IsHeard hear
  await_network-IsHeard s = elim (Bool-cases (is_primary_comms c)) [
    | inr other ↦ simp (await_network, other)
    | inl primary ↦ elim (Bool-cases c.ip_autoconnect) [
      | inr manual ↦ simp (await_network, primary, manual)
      | inl auto ↦ simp (await_network, primary, auto) (schedule-IsHeard s)
    ]
  ]

  ip_on_disconnect-IsHeard : (now : ℕ) (s : Ip) → IsHeard s (ip_on_disconnect c now s)
  unfolding ip_on_disconnect IsHeard hear
  ip_on_disconnect-IsHeard now s =
      then_do-IsHeard s (await_network c s) (drop_connection now) (await_network-IsHeard s) refl

  ip_disconnect-IsHeard : (retry : Bool) (s : Ip) → IsHeard s (ip_disconnect c retry s)
  unfolding ip_disconnect IsHeard hear
  ip_disconnect-IsHeard true s = schedule-IsHeard s
  ip_disconnect-IsHeard false s = refl

  ip_retry-IsHeard : (now : ℕ) (s : Ip) → IsHeard s (ip_retry c ip_connect now s)
  unfolding ip_retry ip_connect IsHeard hear
  ip_retry-IsHeard now s =
      elim (Bool-cases (s.ip_reconnect_due && leb (to_ulong c.ip_delay_connect) (now / 1000))) [
        | inr idle ↦ simp (ip_retry, idle)
        | inl due ↦ elim (Bool-cases s.ip_connected) [
          | inl up ↦ simp (ip_retry, due, up)
          | inr down ↦ simp (ip_retry, due, down)
        ]
      ]

  ip_notify-IsHeard : (s : Ip) → IsHeard s (ip_notify c s)
  unfolding ip_notify IsHeard hear
  ip_notify-IsHeard s = elim (Bool-cases c.ip_do_notify) [
    | inr quiet ↦ simp (ip_notify, quiet)
    | inl on ↦ elim (Bool-cases s.ip_connected) [
      | inl up ↦ elim (Bool-cases s.ip_connect_notified) [
        | inl told ↦ simp (ip_notify, on, up, told)
        | inr untold ↦ simp (ip_notify, on, up, untold)
      ]
      | inr down ↦ elim (Bool-cases s.ip_connect_notified) [
        | inl told ↦ simp (ip_notify, on, down, told)
        | inr untold ↦ simp (ip_notify, on, down, untold)
      ]
    ]
  ]

  ip_report-IsHeard : (now : ℕ) (s : Ip) → IsHeard s (ip_report c now s)
  unfolding ip_report IsHeard hear
  ip_report-IsHeard now s =
      let due = (s.ip_report_last_sec + c.ip_report_interval_sec) % 2 ^ 32 in
      elim (Bool-cases (ltb 0 c.ip_report_interval_sec && leb due (now / 1000))) [
        | inl e ↦ simp (ip_report, e)
        | inr e ↦ simp (ip_report, e)
      ]

  step-IsHeard : (s : Ip) (e : Event) → IsHeard s (step c s e)
  unfolding step ip_loop IsHeard hear ip_on_connect ip_connect ip_timer_fires ip_set_reconnect_due
  step-IsHeard s (link_up now) = refl
  step-IsHeard s (link_down now) = ip_on_disconnect-IsHeard now s
  step-IsHeard s (round now) =
      let tried = ip_retry c ip_connect now s in
      let told = then_do tried (ip_notify c) in
      then_do-IsHeard s told (ip_report c now)
        (then_do-IsHeard s tried (ip_notify c) (ip_retry-IsHeard now s) (ip_notify-IsHeard tried.0))
        (ip_report-IsHeard now told.0)
  step-IsHeard s ticker = elim (Bool-cases s.timer_active) [
    | inl armed ↦ simp armed
    | inr idle ↦ simp idle
  ]
  step-IsHeard s dial = refl
  step-IsHeard s (hang_up retry) = ip_disconnect-IsHeard retry s

  run-IsHeard : (s : Ip) (es : List Event) → IsHeard s (run c s es)
  unfolding run IsHeard hear
  run-IsHeard s [] = refl
  run-IsHeard s (e ∷ es) =
      then_do-IsHeard s (step c s e) (λ d. run c d es) (step-IsHeard s e)
        (run-IsHeard (step c s e).0 es)

  run-append :
      (s : Ip) (es more : List Event) → (run c s (es ++ more)).0 ≡ (run c (run c s es).0 more).0
  unfolding run
  run-append s [] more = refl
  run-append s (e ∷ es) more = run-append (step c s e).0 es more

  round-tells :
      (now : ℕ) (s : Ip)
      → c.ip_do_notify ≡ true
      → (step c s (round now)).0.ip_connect_notified ≡ (step c s (round now)).0.ip_connected
  unfolding step ip_loop ip_notify ip_report
  round-tells now s on =
      report (ip_notify c (ip_retry c ip_connect now s).0).0
        (notify (ip_retry c ip_connect now s).0)
    where
      notify : (d : Ip) → (ip_notify c d).0.ip_connect_notified ≡ (ip_notify c d).0.ip_connected
      notify d = elim (Bool-cases d.ip_connected) [
        | inl up ↦ elim (Bool-cases d.ip_connect_notified) [
          | inl told ↦ simp (ip_notify, on, up, told)
          | inr untold ↦ simp (ip_notify, on, up, untold)
        ]
        | inr down ↦ elim (Bool-cases d.ip_connect_notified) [
          | inl told ↦ simp (ip_notify, on, down, told)
          | inr untold ↦ simp (ip_notify, on, down, untold)
        ]
      ]

      report :
          (d : Ip)
          → d.ip_connect_notified ≡ d.ip_connected
          → (ip_report c now d).0.ip_connect_notified ≡ (ip_report c now d).0.ip_connected
      report d same =
          let due = (d.ip_report_last_sec + c.ip_report_interval_sec) % 2 ^ 32 in
          elim (Bool-cases (ltb 0 c.ip_report_interval_sec && leb due (now / 1000))) [
            | inl e ↦ simp (ip_report, e) same
            | inr e ↦ simp (ip_report, e) same
          ]

  -- Whatever happens to a transport that notifies, a listener who starts with what the transport noted as told
  -- hears connections and disconnections in turn, never the same twice, and after a round of the loop
  -- it knows whether the network is up.
  pub run-hear :
      (s : Ip) (es : List Event) (now : ℕ)
      → c.ip_do_notify ≡ true
      → hear s.ip_connect_notified (run c s (es ++ round now ∷ [])).1
        ≡ some (run c s (es ++ round now ∷ [])).0.ip_connected
  unfolding IsHeard run
  run-hear s es now on =
      let before = (run c s es).0 in
      let tells = round-tells now before on in
      let same = run-append s es (round now ∷ []) in
      run-IsHeard s (es ++ round now ∷ [])
      ∙ ap some (ap (λ d. d.ip_connect_notified) same ∙ tells ∙ sym (ap (λ d. d.ip_connected) same))
