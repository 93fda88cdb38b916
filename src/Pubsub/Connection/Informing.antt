-- ===== src/Pubsub/Connection/Informing.antt =====
-- What the other leaves are told of the connection (abstract_pubsub.h: `loop`).
use stacx.Prelude.{
  ℕ, ◌%◌, ◌^◌, ◌/◌, ◌+◌, ◌==◌, ◌≡◌, refl, sym, ap, ◌∙◌, Bool, true, false, ◌&&◌, [], ◌∷◌, ◌++◌,
  if◌then◌else◌, ltb, leb, Bool-cases, inl, inr, arith,
}
use mathlib.Core.List.{append-nil}
use stacx.Prelude.Text.{lit}
use stacx.Prelude.Number.{show_nat}
use stacx.Pubsub.Connection.{
  Settings, Connection, Step, next_do, settle, on_change, connect, set_reconnect_due,
  schedule_reconnect, limit_reached, on_connect, on_disconnect, broker_is_silent, seconds_since,
  check_heartbeat, retry, notify, report, loop,
}
use stacx.Pubsub.Connection.Subscriptions.{
  wait_pubsub, ip_comms_state, announce, publish, leaves_disconnect,
}
use stacx.Pubsub.Connection.Hearing.{
  hear, hear-append, Tells, Tells-append, ends_connected, Informs, Informs-next_do, unless, ran,
  on_change-Informs, Informs-if,
}

module _ (c : Settings) where
  schedule_reconnect-Informs : (s : Connection) → Informs s (schedule_reconnect c s)
  unfolding schedule_reconnect set_reconnect_due Informs hear
  schedule_reconnect-Informs s = elim (Bool-cases (limit_reached c s.connect_attempt_count)) [
    | inl reached ↦ simp reached (λ running. refl)
    | inr left ↦ elim (Bool-cases (c.reconnect_interval_sec == 0)) [
      | inl immediate ↦ simp (left, immediate) (λ running. refl)
      | inr delayed ↦ elim (Bool-cases c.has_ticker) [
        | inl ticker ↦ simp (left, delayed, ticker) (λ running. refl)
        | inr without ↦ simp (left, delayed, without) (λ running. refl)
      ]
    ]
  ]

  schedule_reconnect-connected :
      (s : Connection) → (schedule_reconnect c s).0.connected ≡ s.connected
  unfolding schedule_reconnect set_reconnect_due
  schedule_reconnect-connected s = elim (Bool-cases (limit_reached c s.connect_attempt_count)) [
    | inl reached ↦ simp reached
    | inr left ↦ elim (Bool-cases (c.reconnect_interval_sec == 0)) [
      | inl immediate ↦ simp (left, immediate)
      | inr delayed ↦ elim (Bool-cases c.has_ticker) [
        | inl ticker ↦ simp (left, delayed, ticker)
        | inr without ↦ simp (left, delayed, without)
      ]
    ]
  ]

  -- An attempt, and the schedule of the next one.
  retry-Informs : (ip_connected : Bool) (s : Connection) → Informs s (retry c ip_connected s)
  unfolding retry connect Informs hear
  retry-Informs ip_connected s = elim (Bool-cases ip_connected) [
    | inr offline ↦ simp (retry, offline) (λ running. refl)
    | inl up ↦ elim (Bool-cases s.reconnect_due) [
      | inr idle ↦ simp (retry, up, idle) (λ running. refl)
      | inl due ↦ simp (retry, up, due, connect) (λ running. refl)
    ]
  ]

  report-Informs : (now : ℕ) (s : Connection) → Informs s (report c now s)
  unfolding report Informs hear
  report-Informs now s =
      let due =
        ltb 0 c.report_interval_sec
        && leb ((s.report_last_sec + c.report_interval_sec) % 2 ^ 32) (now / 1000) in
      elim (Bool-cases due) [
        | inl e ↦ simp (report, e) (λ running. refl)
        | inr e ↦ simp (report, e) (λ running. refl)
      ]

  on_connect-Tells : (now : ℕ) (s : Connection) → Tells true (on_connect c true now s).1
  unfolding on_connect
  on_connect-Tells now s = search (Tells-append, ends_connected) depth 6

  on_connect-connected : (now : ℕ) (s : Connection) → (on_connect c true now s).0.connected ≡ true
  unfolding on_connect
  on_connect-connected now s = refl

  -- Both reports, with the flag that follows them.
  settle-Informs :
      (s : Connection) (step : Step) (v : Bool)
      → (step.0.rebooting ≡ false → Tells v step.1 × (step.0.connected ≡ v))
      → Informs s (settle step)
  unfolding Informs Tells
  settle-Informs s step v told = elim (Bool-cases step.0.rebooting) [
    | inl reboots ↦ simp reboots (λ running. absurd (ground (arith, reboots)))
    | inr runs ↦
        let (tells, up) = told runs in
        simp runs (λ running.
          ap (hear s.connect_notified) (append-nil step.1) ∙ tells s.connect_notified ∙ sym up)
  ]

  schedule_reconnect-silent : (s : Connection) (b : Bool) → hear b (schedule_reconnect c s).1 ≡ b
  unfolding schedule_reconnect hear
  schedule_reconnect-silent s b = elim (Bool-cases (limit_reached c s.connect_attempt_count)) [
    | inl reached ↦ simp reached
    | inr left ↦ simp left
  ]

  -- The operation after a loss.
  abbrev rescheduled : Connection → Step
  rescheduled d = if c.autoconnect then schedule_reconnect c d else (d, [])

  rescheduled-silent :
      (d : Connection)
      → ((b : Bool) → hear b (rescheduled d).1 ≡ b) × ((rescheduled d).0.connected ≡ d.connected)
  unfolding hear
  rescheduled-silent d = elim (Bool-cases c.autoconnect) [
    | inl by_itself ↦
        simp by_itself ((λ b. schedule_reconnect-silent d b), schedule_reconnect-connected d)
    | inr asked ↦ simp asked ((λ b. refl), refl)
  ]

  on_disconnect-Tells :
      (ip_connected : Bool) (now : ℕ) (s : Connection)
      → (on_disconnect c ip_connected now s).0.rebooting ≡ false
      → Tells false (on_disconnect c ip_connected now s).1
        × ((on_disconnect c ip_connected now s).0.connected ≡ false)
  unfolding on_disconnect Tells hear
  on_disconnect-Tells ip_connected now s =
      let dropped : Connection = record s {
        connecting = false;
        connected = false;
        disconnect_time = now;
      } in
      let waits = if ip_connected then ip_comms_state wait_pubsub ∷ [] else [] in
      let told = announce (lit "_pubsub_disconnect") (lit "1") ∷ leaves_disconnect ∷ [] in
      let (silent, same) = rescheduled-silent dropped in
      let followed : Step = ((rescheduled dropped).0, (waits ++ told) ++ (rescheduled dropped).1) in
      unless s.rebooting (dropped, waits ++ told) followed
        (λ step. Tells false step.1 × (step.0.connected ≡ false)) (λ e. e)
        (
          λ b.
              hear-append (waits ++ told) b (rescheduled dropped).1
              ∙ silent (hear b (waits ++ told))
              ∙ Tells-append false waits told (λ x. refl) b,
          same,
        )

  -- A change is told, and noted.
  notify-Informs :
      (ip_connected : Bool) (now : ℕ) (s : Connection) → Informs s (notify c ip_connected now s)
  unfolding notify
  notify-Informs ip_connected now s =
      let came = settle (on_connect c true now s) in
      let went = settle (on_disconnect c ip_connected now s) in
      on_change-Informs s.connect_notified s.connected s came went
        (settle-Informs s (on_connect c true now s) true
          (λ running. (on_connect-Tells now s, on_connect-connected now s)))
        (settle-Informs s (on_disconnect c ip_connected now s) false
          (on_disconnect-Tells ip_connected now s))

  -- The flag follows the connection.
  Settles : Step → Type 0
  Settles step = step.0.rebooting ≡ false → step.0.connect_notified ≡ step.0.connected

  on_change-Settles :
      (told up : Bool) (s : Connection) (came went : Step)
      → s.connect_notified ≡ told
      → s.connected ≡ up
      → Settles came
      → Settles went
      → Settles (on_change told up came went (s, []))
  unfolding Settles
  on_change-Settles true true s came went ht hu hc hw running = ht ∙ sym hu
  on_change-Settles true false s came went ht hu hc hw running = hw running
  on_change-Settles false true s came went ht hu hc hw running = hc running
  on_change-Settles false false s came went ht hu hc hw running = ht ∙ sym hu

  settle-Settles : (step : Step) → Settles (settle step)
  unfolding Settles
  settle-Settles step running =
      unless step.0.rebooting step
        (record step.0 { connect_notified = step.0.connected }, step.1 ++ [])
        (λ t. t.0.connect_notified ≡ t.0.connected) (λ e. e) refl running

  notify-Settles :
      (ip_connected : Bool) (now : ℕ) (s : Connection) → Settles (notify c ip_connected now s)
  unfolding notify
  notify-Settles ip_connected now s =
      let came = settle (on_connect c true now s) in
      let went = settle (on_disconnect c ip_connected now s) in
      on_change-Settles s.connect_notified s.connected s came went refl refl
        (settle-Settles (on_connect c true now s))
        (settle-Settles (on_disconnect c ip_connected now s))

  report-Settles :
      (now : ℕ) (s : Connection) → s.connect_notified ≡ s.connected → Settles (report c now s)
  unfolding Settles report
  report-Settles now s h running =
      let due =
        ltb 0 c.report_interval_sec
        && leb ((s.report_last_sec + c.report_interval_sec) % 2 ^ 32) (now / 1000) in
      elim (Bool-cases due) [ inl e ↦ simp (report, e) h | inr e ↦ simp (report, e) h ]

  -- What follows an operation that went on.
  next_do-Settles :
      (step : Step) (f : Connection → Step)
      → (step.0.rebooting ≡ false → Settles (f step.0))
      → Settles (next_do step f)
  unfolding Settles
  next_do-Settles step f h running =
      let next : Step = ((f step.0).0, step.1 ++ (f step.0).1) in
      let (went_on, runs) = ran step.0.rebooting step next (λ e. e) running in
      unless step.0.rebooting step next (λ t. t.0.connect_notified ≡ t.0.connected) (λ e. e)
        (h went_on runs) running

  check_heartbeat-Informs :
      (client_disconnect : Connection → Step) (now : ℕ) (s : Connection)
      → ((d : Connection) → Informs d (client_disconnect d))
      → Informs s (check_heartbeat c client_disconnect now s)
  unfolding check_heartbeat Informs hear
  check_heartbeat-Informs client_disconnect now s informs =
      let reports : Connection → Step = λ d. (
        d,
        publish (lit "event/broker_keepalive")
              (show_nat (seconds_since now s.last_broker_heartbeat)) 0 false
            ∷ [],
      ) in
      Informs-if (broker_is_silent c now s) s (next_do (client_disconnect s) reports) (s, [])
        (Informs-next_do s (client_disconnect s) reports (informs s) (λ running. refl))
        (λ running. refl)

  -- After a round of the loop without a reboot, what a leaf that taps the transport was told last, by
  -- _pubsub_connect or _pubsub_disconnect, is how the connection is, if the flag of what was told was right before.
  -- The client's disconnection, when the broker is silent, tells the leaves nothing but what it notes.
  pub loop-hear :
      (client_disconnect : Connection → Step) (ip_connected : Bool) (now : ℕ) (s : Connection)
      → ((d : Connection) → Informs d (client_disconnect d))
      → (loop c client_disconnect ip_connected now s).0.rebooting ≡ false
      → hear s.connect_notified (loop c client_disconnect ip_connected now s).1
        ≡ (loop c client_disconnect ip_connected now s).0.connected
  unfolding loop Informs Settles
  loop-hear client_disconnect ip_connected now s informs running =
      let checked = check_heartbeat c client_disconnect now s in
      let retried = next_do checked (retry c ip_connected) in
      let told = next_do retried (notify c ip_connected now) in
      let told_Settles =
        next_do-Settles retried (notify c ip_connected now)
          (λ runs. notify-Settles ip_connected now retried.0) in
      let retried_Informs =
        Informs-next_do s checked (retry c ip_connected)
          (check_heartbeat-Informs client_disconnect now s informs)
          (retry-Informs ip_connected checked.0) in
      let told_Informs =
        Informs-next_do s retried (notify c ip_connected now) retried_Informs
          (notify-Informs ip_connected now retried.0) in
      Informs-next_do s told (report c now) told_Informs (report-Informs now told.0) running
      ∙ next_do-Settles told (report c now) (λ runs. report-Settles now told.0 (told_Settles runs))
          running
