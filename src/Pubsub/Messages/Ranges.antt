-- ===== src/Pubsub/Messages/Ranges.antt =====
-- The settings of the transport and their ranges (abstract_pubsub.h).
use stacx.Prelude.{
  ℕ, ◌<◌, ◌≡◌, refl, subst, Bool, true, false, ◌&&◌, Option, none, some, is_some, if◌then◌else◌,
  ltb, Bool-cases, inl, inr, arith,
}
use stacx.Prelude.Text.{Text, lit, not_empty, text_eq}
use stacx.Prelude.Int.{ℤ, pos, negsuc}
use stacx.Prelude.Number.{to_int}
use stacx.Pubsub.Messages.{
  wants_topic, is_heartbeat, Transport, Reaction, receive_heartbeat, receive_time_source,
  set_device_id, set_autoconnect, set_host, set_port, set_debug_level, receive_own, mqtt_receive,
}

-- A port that TCP has.
abbrev pub IsPort : ℕ → Type 0
IsPort p = (0 < p) × (p < 65536)

set_port-IsPort :
    (t : Transport) (payload : Text) → IsPort t.port → IsPort (set_port t payload).after.port
unfolding set_port
set_port-IsPort t payload h = by_number (to_int payload) refl
  where
    by_number : (i : ℤ) → to_int payload ≡ i → IsPort (set_port t payload).after.port
    by_number (negsuc p) e = simp (set_port, e) h
    by_number (pos p) e = elim (Bool-cases (ltb 0 p && ltb p 65536)) [
      | inl fits ↦ simp (set_port, e, fits) (ground arith, ground arith)
      | inr other ↦ simp (set_port, e, other) h
    ]

if-IsPort :
    (b : Bool) (x y : Reaction)
    → IsPort x.after.port
    → IsPort y.after.port
    → IsPort (if b then x else y).after.port
if-IsPort true x y hx hy = hx
if-IsPort false x y hx hy = hy

-- What the transport answers itself keeps the port.
abbrev KeepsPort : Option Reaction → Type 0
KeepsPort none = Unit
KeepsPort (some r) = IsPort r.after.port

if-KeepsPort :
    (b : Bool) (x y : Option Reaction) → KeepsPort x → KeepsPort y → KeepsPort (if b then x else y)
if-KeepsPort true x y hx hy = hx
if-KeepsPort false x y hx hy = hy

receive_own-IsPort :
    (now : ℕ) (t : Transport) (topic payload : Text)
    → IsPort t.port
    → KeepsPort (receive_own now t topic payload)
unfolding receive_own receive_heartbeat receive_time_source set_device_id set_autoconnect set_host
    set_debug_level
receive_own-IsPort now t topic payload h =
    (if-KeepsPort (is_heartbeat t topic) _ _ (if-IsPort (t.has_ip && t.lacks_time) _ _ h h) (
      if-KeepsPort (text_eq topic (lit "status/time_source")) _ _ (if-IsPort t.timer_active _ _ h h)
        (if-KeepsPort (text_eq topic (lit "get/build") && is_some t.build_number) _ _ h (
          if-KeepsPort (text_eq topic (lit "get/uptime")) _ _ h (
            if-KeepsPort (text_eq topic (lit "get/mac")) _ _ h (
              if-KeepsPort (text_eq topic (lit "set/device_id")) _ _
                (if-IsPort (not_empty payload) _ _ h h)
                (if-KeepsPort (text_eq topic (lit "set/pubsub_autoconect")) _ _ h (
                  if-KeepsPort (text_eq topic (lit "set/pubsub_host")) _ _
                    (if-IsPort (not_empty payload) _ _ h h)
                    (if-KeepsPort (text_eq topic (lit "set/pubsub_port")) _ _
                      (set_port-IsPort t payload h)
                      (if-KeepsPort (text_eq topic (lit "set/ts")) _ _ h (
                        if-KeepsPort (text_eq topic (lit "get/debug_level")) _ _ h (
                          if-KeepsPort (text_eq topic (lit "set/debug_level")) _ _ h (
                            if-KeepsPort (text_eq topic (lit "get/debug_wait")) _ _ h (
                              if-KeepsPort (text_eq topic (lit "set/debug_wait")) _ _ h (
                                if-KeepsPort (text_eq topic (lit "get/debug_lines")) _ _ h (
                                  if-KeepsPort (text_eq topic (lit "set/debug_lines")) _ _ h (
                                    if-KeepsPort (text_eq topic (lit "get/debug_flush")) _ _ h (
                                      if-KeepsPort (text_eq topic (lit "set/debug_flush")) _ _ h
                                        tt))))))))))))))))))

module _ (set_up : Transport → Transport) (base_receive : Transport → Text → Text → Reaction)
    (now : ℕ) (t : Transport) (topic payload : Text) where
  -- No message makes the port one that TCP does not have, whatever number it brings. (The set-up of the
  -- transport and the base class keep a port within its range.)
  mqtt_receive-IsPort :
      ((s : Transport) → IsPort s.port → IsPort (set_up s).port)
      → ((s : Transport) (u v : Text) → IsPort s.port → IsPort (base_receive s u v).after.port)
      → IsPort t.port
      → IsPort (mqtt_receive set_up base_receive now t topic payload).after.port
  unfolding mqtt_receive
  mqtt_receive-IsPort set_up_keeps base_keeps h =
      let ready = if t.setup_done then t else set_up t in
      let ready_port = ready_lem t.setup_done in
      by_answer ready_port (receive_own now ready topic payload) refl
    where
      ready_lem : (b : Bool) → IsPort (if b then t else set_up t).port
      ready_lem true = h
      ready_lem false = set_up_keeps t h

      by_answer :
          IsPort (if t.setup_done then t else set_up t).port
          → (o : Option Reaction)
          → receive_own now (if t.setup_done then t else set_up t) topic payload ≡ o
          → IsPort (mqtt_receive set_up base_receive now t topic payload).after.port
      by_answer ready_port none e = simp (mqtt_receive, e) (base_keeps _ topic payload ready_port)
      by_answer ready_port (some own) e =
          simp (mqtt_receive, e)
            (subst (λ o. KeepsPort o) e
              (receive_own-IsPort now (if t.setup_done then t else set_up t) topic payload
                ready_port))

-- Every topic that the transport wants for itself, without asking its base class, is handled by the
-- transport, if it has been set up and the build has a number.
pub wants_own_is_handled :
    (set_up : Transport → Transport) (base_receive : Transport → Text → Text → Reaction) (now : ℕ)
    (t : Transport) (topic payload : Text)
    → wants_topic (λ u. false) t topic ≡ true
    → t.setup_done ≡ true
    → is_some t.build_number ≡ true
    → (mqtt_receive set_up base_receive now t topic payload).handled ≡ true
unfolding wants_topic mqtt_receive receive_own receive_heartbeat set_device_id
wants_own_is_handled set_up base_receive now t topic payload wanted ready built =
    elim (Bool-cases (is_heartbeat t topic)) [
      | inl heartbeat ↦ elim (Bool-cases (t.has_ip && t.lacks_time)) [
        | inl unset ↦ simp (mqtt_receive, ready, receive_own, heartbeat, receive_heartbeat, unset)
        | inr set ↦ simp (mqtt_receive, ready, receive_own, heartbeat, receive_heartbeat, set)
      ]
      | inr other ↦ elim (Bool-cases (not_empty payload)) [
        | inl some_id ↦ ground (arith, ready, built, wanted, other, some_id)
        | inr no_id ↦ ground (arith, ready, built, wanted, other, no_id)
      ]
    ]
