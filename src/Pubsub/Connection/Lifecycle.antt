-- ===== src/Pubsub/Connection/Lifecycle.antt =====
-- The connection over time (abstract_pubsub.h).
use stacx.Prelude.{ℕ, ◌+◌, ◌≡◌, ap, ◌∙◌, Bool, true, false}
use stacx.Pubsub.Connection.{
  Settings, Connection, Step, next_do, limit_reached, check_heartbeat, retry, notify, report, loop,
}
use stacx.Pubsub.Connection.Recovering.{
  IsLost, is_pending, time_passes, next_do-runs, report-keeps, IsAutomatic, Waits, notify-recovers,
  notify-idle, check_heartbeat-down, retry-keeps, retry-connects, time_passes-due,
}

module _ (c : Settings) where
  -- A round of the loop while the connection is down and nothing reboots.
  loop-down :
      (client_disconnect : Connection → Step) (ip_connected : Bool) (now : ℕ) (s : Connection)
      → s.connected ≡ false
      → s.rebooting ≡ false
      → (retry c ip_connected s).0.rebooting ≡ false
      → (notify c ip_connected now (retry c ip_connected s).0).0.rebooting ≡ false
      → (loop c client_disconnect ip_connected now s).0
        ≡ (report c now (notify c ip_connected now (retry c ip_connected s).0).0).0
  unfolding loop
  loop-down client_disconnect ip_connected now s down running tried told =
      let quiet =
        ap (λ (step : Step). step.0) (check_heartbeat-down c client_disconnect now s down) in
      let first = next_do (check_heartbeat c client_disconnect now s) (retry c ip_connected) in
      let retried =
        next_do-runs c (check_heartbeat c client_disconnect now s) (retry c ip_connected) s quiet
          running in
      let notified =
        next_do-runs c first (notify c ip_connected now) (retry c ip_connected s).0 retried tried in
      next_do-runs c (next_do first (notify c ip_connected now)) (report c now)
        (notify c ip_connected now (retry c ip_connected s).0).0 notified told

  -- The round of the loop that tells the leaves of a loss.
  loop-IsLost :
      (client_disconnect : Connection → Step) (ip_connected : Bool) (now : ℕ) (s : Connection)
      → IsAutomatic c
      → IsLost s
      → limit_reached c (s.connect_attempt_count + 1) ≡ false
      → Waits c (loop c client_disconnect ip_connected now s).0
        × ((loop c client_disconnect ip_connected now s).0.connect_notified ≡ false)
  loop-IsLost client_disconnect ip_connected now s automatic lost attempts =
      let tried = (retry c ip_connected s).0 in
      let (told, down, runs, left) = retry-keeps c ip_connected s attempts in
      let still : IsLost tried = record {
        told = told ∙ lost.told;
        down = down ∙ lost.down;
        running = runs ∙ lost.running;
      } in
      let ((pending, off, on), untold) =
        notify-recovers c ip_connected now tried automatic still left in
      let kept = report-keeps c now (notify c ip_connected now tried).0 in
      let same =
        loop-down client_disconnect ip_connected now s lost.down lost.running still.running on in
      (
        (
          ap is_pending same ∙ kept.3 ∙ pending,
          ap (λ (d : Connection). d.connected) same ∙ kept.1 ∙ off,
          ap (λ (d : Connection). d.rebooting) same ∙ kept.4 ∙ on,
        ),
        ap (λ (d : Connection). d.connect_notified) same ∙ kept.0 ∙ untold,
      )

  -- A round of the loop with the network up, while the connection is down and a retry is due.
  loop-connects :
      (client_disconnect : Connection → Step) (now : ℕ) (s : Connection)
      → s.connected ≡ false
      → s.connect_notified ≡ false
      → s.rebooting ≡ false
      → s.reconnect_due ≡ true
      → (loop c client_disconnect true now s).0.connecting ≡ true
  loop-connects client_disconnect now s down untold running due =
      let tried = (retry c true s).0 in
      let (connecting, told, same_down, runs) = retry-connects c s due in
      let idle = notify-idle c true now tried (told ∙ untold) (same_down ∙ down) in
      let quiet = ap (λ (step : Step). step.0) idle in
      let same =
        loop-down client_disconnect true now s down running (runs ∙ running)
          (ap (λ (d : Connection). d.rebooting) quiet ∙ runs ∙ running) in
      ap (λ (d : Connection). d.connecting) same
      ∙ (report-keeps c now (notify c true now tried).0).2
      ∙ ap (λ (d : Connection). d.connecting) quiet
      ∙ connecting

  -- A lost connection is tried again: in the round of the loop that tells the leaves of the loss a retry
  -- becomes due or the timer is started, without a reboot, and once the timer has fired the next round in
  -- which the network is up makes an attempt. (The transport connects by itself, there is a timer or no
  -- delay, the device is not rebooting, and one more attempt does not reach the limit of attempts, if there is
  -- one, at which the device reboots instead.)
  pub lost_is_retried :
      (client_disconnect : Connection → Step) (ip_connected : Bool) (now later : ℕ) (s : Connection)
      → IsAutomatic c
      → IsLost s
      → limit_reached c (s.connect_attempt_count + 1) ≡ false
      → let told = (loop c client_disconnect ip_connected now s).0 in
        (is_pending told ≡ true)
        × (told.rebooting ≡ false)
        × ((loop c client_disconnect true later (time_passes told)).0.connecting ≡ true)
  lost_is_retried client_disconnect ip_connected now later s automatic lost attempts =
      let after = (loop c client_disconnect ip_connected now s).0 in
      let ((pending, down, runs), untold) =
        loop-IsLost client_disconnect ip_connected now s automatic lost attempts in
      let (due, same, told_same, runs_same) = time_passes-due c after pending in
      (
        pending,
        runs,
        loop-connects client_disconnect later (time_passes after) (same ∙ down) (told_same ∙ untold)
            (runs_same ∙ runs) due,
      )
