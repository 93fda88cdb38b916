-- ===== src/Pubsub/Connection/Recovering.antt =====
-- The steps of a round of the loop after a loss (abstract_pubsub.h: `loop`).
use stacx.Prelude.{
  ℕ, ltb, leb, ◌/◌, ◌+◌, ◌==◌, ◌%◌, ◌^◌, ◌≡◌, refl, ap, ◌∙◌, Bool, true, false, ◌||◌, ◌&&◌, [],
  if◌then◌else◌, Bool-cases, inl, inr, arith,
}
use stacx.Pubsub.Connection.{
  Settings, Connection, Step, next_do, settle, on_change, on_connect, connect, set_reconnect_due,
  timer_fires, schedule_reconnect, on_disconnect, limit_reached, check_heartbeat, retry, notify,
  report,
}

-- A lost connection that the leaves have not been told of yet.
pub record IsLost (s : Connection) : Type 0 where
  pub told : s.connect_notified ≡ true
  pub down : s.connected ≡ false
  pub running : s.rebooting ≡ false

-- A retry is due, or the timer runs.
abbrev pub is_pending : Connection → Bool
is_pending s = s.reconnect_due || s.timer_active

-- The timer fires, if it runs.
abbrev pub time_passes : Connection → Connection
time_passes s = if s.timer_active then timer_fires s else s

module _ (c : Settings) where
  -- What follows an operation that does not reboot.
  pub next_do-runs :
      (step : Step) (f : Connection → Step) (s : Connection)
      → step.0 ≡ s
      → s.rebooting ≡ false
      → (next_do step f).0 ≡ (f s).0
  next_do-runs step f s at running =
      let runs = ap (λ (d : Connection). d.rebooting) at ∙ running in
      simp runs (ap (λ d. (f d).0) at)

  -- The report leaves the connection alone.
  pub report-keeps :
      (now : ℕ) (s : Connection)
      → ((report c now s).0.connect_notified ≡ s.connect_notified)
        × ((report c now s).0.connected ≡ s.connected)
        × ((report c now s).0.connecting ≡ s.connecting)
        × (is_pending (report c now s).0 ≡ is_pending s)
        × ((report c now s).0.rebooting ≡ s.rebooting)
  unfolding report
  report-keeps now s =
      let due =
        ltb 0 c.report_interval_sec
        && leb ((s.report_last_sec + c.report_interval_sec) % 2 ^ 32) (now / 1000) in
      elim (Bool-cases due) [
        | inl e ↦ simp (report, e) (refl, refl, refl, refl, refl)
        | inr e ↦ simp (report, e) (refl, refl, refl, refl, refl)
      ]

  -- The transport connects by itself, and can wait.
  pub record IsAutomatic : Type 0 where
    pub autoconnects : c.autoconnect ≡ true
    pub can_wait : (c.has_ticker || c.reconnect_interval_sec == 0) ≡ true

  pub schedule_reconnect-pending :
      (s : Connection)
      → IsAutomatic
      → limit_reached c s.connect_attempt_count ≡ false
      → (is_pending (schedule_reconnect c s).0 ≡ true)
        × ((schedule_reconnect c s).0.connected ≡ s.connected)
        × ((schedule_reconnect c s).0.rebooting ≡ s.rebooting)
  unfolding schedule_reconnect set_reconnect_due
  schedule_reconnect-pending s automatic attempts =
      elim (Bool-cases (c.reconnect_interval_sec == 0)) [
        | inl immediate ↦
            simp (schedule_reconnect, set_reconnect_due, immediate, attempts) (refl, refl, refl)
        | inr delayed ↦
            let ticker : c.has_ticker ≡ true = ground (arith, automatic.can_wait) in
            simp (schedule_reconnect, delayed, ticker, attempts) (ground arith, refl, refl)
      ]

  -- A retry is pending, the connection is down, and the device runs on.
  abbrev pub Waits : Connection → Type 0
  Waits s = (is_pending s ≡ true) × (s.connected ≡ false) × (s.rebooting ≡ false)

  pub on_disconnect-recovers :
      (ip_connected : Bool) (now : ℕ) (s : Connection)
      → IsAutomatic
      → s.rebooting ≡ false
      → limit_reached c s.connect_attempt_count ≡ false
      → Waits (on_disconnect c ip_connected now s).0
  unfolding on_disconnect
  on_disconnect-recovers ip_connected now s automatic running attempts =
      let dropped : Connection = record s {
        connecting = false;
        connected = false;
        disconnect_time = now;
      } in
      let (pending, down, runs) = schedule_reconnect-pending dropped automatic attempts in
      let same : (on_disconnect c ip_connected now s).0 ≡ (schedule_reconnect c dropped).0 =
        simp (on_disconnect, running, automatic.autoconnects) in
      (
        ap is_pending same ∙ pending,
        ap (λ (d : Connection). d.connected) same ∙ down,
        ap (λ (d : Connection). d.rebooting) same ∙ runs ∙ running,
      )

  -- The round that tells the leaves of the loss, with attempts left.
  pub notify-recovers :
      (ip_connected : Bool) (now : ℕ) (s : Connection)
      → IsAutomatic
      → IsLost s
      → limit_reached c s.connect_attempt_count ≡ false
      → Waits (notify c ip_connected now s).0
        × ((notify c ip_connected now s).0.connect_notified ≡ false)
  unfolding notify
  notify-recovers ip_connected now s automatic lost attempts =
      let gone = on_disconnect c ip_connected now s in
      let (pending, down, runs) =
        on_disconnect-recovers ip_connected now s automatic lost.running attempts in
      let told : Connection = record gone.0 { connect_notified = gone.0.connected } in
      let came = settle (on_connect c true now s) in
      let chosen : notify c ip_connected now s ≡ settle gone =
        ap (λ b. on_change b s.connected came (settle gone) (s, [])) lost.told
        ∙ ap (λ b. on_change true b came (settle gone) (s, [])) lost.down in
      let same : (notify c ip_connected now s).0 ≡ told =
        ap (λ (step : Step). step.0) chosen
        ∙ next_do-runs gone (λ d. (record d { connect_notified = d.connected }, [])) gone.0 refl
            runs in
      (
        (
          ap is_pending same ∙ pending,
          ap (λ (d : Connection). d.connected) same ∙ down,
          ap (λ (d : Connection). d.rebooting) same ∙ runs,
        ),
        ap (λ (d : Connection). d.connect_notified) same ∙ down,
      )

  pub notify-idle :
      (ip_connected : Bool) (now : ℕ) (s : Connection)
      → s.connect_notified ≡ false
      → s.connected ≡ false
      → notify c ip_connected now s ≡ (s, [])
  unfolding notify
  notify-idle ip_connected now s untold down =
      let came = settle (on_connect c true now s) in
      let went = settle (on_disconnect c ip_connected now s) in
      ap (λ b. on_change b s.connected came went (s, [])) untold
      ∙ ap (λ b. on_change false b came went (s, [])) down

  pub check_heartbeat-down :
      (client_disconnect : Connection → Step) (now : ℕ) (s : Connection)
      → s.connected ≡ false
      → check_heartbeat c client_disconnect now s ≡ (s, [])
  unfolding check_heartbeat
  check_heartbeat-down client_disconnect now s down = simp (check_heartbeat, down)

  -- A retry does not tell anybody, and makes at most one attempt.
  pub retry-keeps :
      (ip_connected : Bool) (s : Connection)
      → limit_reached c (s.connect_attempt_count + 1) ≡ false
      → let tried = (retry c ip_connected s).0 in
        (tried.connect_notified ≡ s.connect_notified)
        × (tried.connected ≡ s.connected)
        × (tried.rebooting ≡ s.rebooting)
        × (limit_reached c tried.connect_attempt_count ≡ false)
  unfolding retry connect
  retry-keeps ip_connected s attempts =
      let fewer : limit_reached c s.connect_attempt_count ≡ false = ground arith in
      elim (Bool-cases ip_connected) [
        | inr offline ↦ simp (retry, offline) (refl, refl, refl, fewer)
        | inl up ↦ elim (Bool-cases s.reconnect_due) [
          | inr idle ↦ simp (retry, up, idle) (refl, refl, refl, fewer)
          | inl due ↦ simp (retry, up, due, connect) (refl, refl, refl, attempts)
        ]
      ]

  pub retry-connects :
      (s : Connection)
      → s.reconnect_due ≡ true
      → ((retry c true s).0.connecting ≡ true)
        × ((retry c true s).0.connect_notified ≡ s.connect_notified)
        × ((retry c true s).0.connected ≡ s.connected)
        × ((retry c true s).0.rebooting ≡ s.rebooting)
  unfolding retry connect
  retry-connects s due = simp (retry, due, connect) (refl, refl, refl, refl)

  pub time_passes-due :
      (s : Connection)
      → is_pending s ≡ true
      → ((time_passes s).reconnect_due ≡ true)
        × ((time_passes s).connected ≡ s.connected)
        × ((time_passes s).connect_notified ≡ s.connect_notified)
        × ((time_passes s).rebooting ≡ s.rebooting)
  unfolding timer_fires set_reconnect_due
  time_passes-due s pending = elim (Bool-cases s.timer_active) [
    | inl runs ↦ simp (time_passes, runs) (refl, refl, refl, refl)
    | inr stopped ↦ simp (time_passes, stopped) (ground arith, refl, refl, refl)
  ]
