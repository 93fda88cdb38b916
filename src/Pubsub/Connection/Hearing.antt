-- ===== src/Pubsub/Connection/Hearing.antt =====
-- How announcements are heard (abstract_pubsub.h: `loop`).
use stacx.Prelude.{
  ◌≡◌, refl, ap, ◌∙◌, Bool, true, false, [], ◌∷◌, ◌++◌, List, if◌then◌else◌, Bool-cases, inl, inr,
  arith,
}
use stacx.Prelude.Text.{Text, lit, text_eq}
use stacx.Pubsub.Connection.{Connection, Step, next_do, on_change}
use stacx.Pubsub.Connection.Subscriptions.{
  Effect, ip_comms_state, announce, publish, subscribe_raw, subscribe, reboot, leaves_subscribe,
  leaves_disconnect, resend_queue, status,
}

-- What a leaf that taps the transport takes the connection for, after some effects.
unfoldable pub hear : Bool → List Effect → Bool
hear b [] = b
hear b (announce topic payload ∷ es) =
    hear
      (if text_eq topic (lit "_pubsub_connect")
        then true
        else if text_eq topic (lit "_pubsub_disconnect")
        then false
        else b)
      es
hear b (ip_comms_state s ∷ es) = hear b es
hear b (publish topic payload qos retain ∷ es) = hear b es
hear b (subscribe_raw topic ∷ es) = hear b es
hear b (subscribe topic ∷ es) = hear b es
hear b (reboot reason ∷ es) = hear b es
hear b (leaves_subscribe ∷ es) = hear b es
hear b (leaves_disconnect ∷ es) = hear b es
hear b (resend_queue ∷ es) = hear b es
hear b (status ∷ es) = hear b es

pub hear-append :
    (xs : List Effect) (b : Bool) (ys : List Effect) → hear b (xs ++ ys) ≡ hear (hear b xs) ys
unfolding hear
hear-append [] b ys = refl
hear-append (announce topic payload ∷ xs) b ys = hear-append xs _ ys
hear-append (ip_comms_state s ∷ xs) b ys = hear-append xs b ys
hear-append (publish topic payload qos retain ∷ xs) b ys = hear-append xs b ys
hear-append (subscribe_raw topic ∷ xs) b ys = hear-append xs b ys
hear-append (subscribe topic ∷ xs) b ys = hear-append xs b ys
hear-append (reboot reason ∷ xs) b ys = hear-append xs b ys
hear-append (leaves_subscribe ∷ xs) b ys = hear-append xs b ys
hear-append (leaves_disconnect ∷ xs) b ys = hear-append xs b ys
hear-append (resend_queue ∷ xs) b ys = hear-append xs b ys
hear-append (status ∷ xs) b ys = hear-append xs b ys

-- What is heard last counts.
unfoldable pub Tells : Bool → List Effect → Type 0
Tells v es = (b : Bool) → hear b es ≡ v

pub Tells-append : (v : Bool) (xs ys : List Effect) → Tells v ys → Tells v (xs ++ ys)
unfolding Tells
Tells-append v xs ys h b = hear-append xs b ys ∙ h (hear b xs)

pub ends_connected :
    (host : Text) → Tells true (resend_queue ∷ announce (lit "_pubsub_connect") host ∷ [])
unfolding Tells hear
ends_connected host b = refl

-- Unless it reboots, an operation leaves what was told in `connect_notified`.
unfoldable pub Informs : Connection → Step → Type 0
Informs s step = step.0.rebooting ≡ false → hear s.connect_notified step.1 ≡ step.0.connect_notified

pub Informs-next_do :
    (s : Connection) (step : Step) (f : Connection → Step)
    → Informs s step
    → Informs step.0 (f step.0)
    → Informs s (next_do step f)
unfolding Informs
Informs-next_do s step f first second = elim (Bool-cases step.0.rebooting) [
  | inl reboots ↦ simp reboots (λ running. absurd (ground (arith, reboots)))
  | inr runs ↦ simp runs (λ running.
      hear-append step.1 s.connect_notified (f step.0).1
      ∙ ap (λ b. hear b (f step.0).1) (first runs)
      ∙ second running)
]

-- What holds of an operation that does not follow a reboot.
pub unless :
    (b : Bool) (x y : Step) (Q : Step → Type 0)
    → (b ≡ true → x.0.rebooting ≡ true)
    → Q y
    → (if b then x else y).0.rebooting ≡ false
    → Q (if b then x else y)
unless true x y Q reboots h running = absurd (ground (arith, reboots refl))
unless false x y Q reboots h running = h

-- An operation that went on.
pub ran :
    (b : Bool) (x y : Step)
    → (b ≡ true → x.0.rebooting ≡ true)
    → (if b then x else y).0.rebooting ≡ false
    → (b ≡ false) × (y.0.rebooting ≡ false)
ran true x y reboots running = absurd (ground (arith, reboots refl))
ran false x y reboots running = (refl, running)

pub on_change-Informs :
    (told up : Bool) (s : Connection) (came went : Step)
    → Informs s came
    → Informs s went
    → Informs s (on_change told up came went (s, []))
unfolding Informs hear
on_change-Informs true true s came went hc hw running = refl
on_change-Informs true false s came went hc hw running = hw running
on_change-Informs false true s came went hc hw running = hc running
on_change-Informs false false s came went hc hw running = refl

-- A choice between two operations.
pub Informs-if :
    (b : Bool) (s : Connection) (x y : Step)
    → Informs s x
    → Informs s y
    → Informs s (if b then x else y)
Informs-if true s x y hx hy = hx
Informs-if false s x y hx hy = hy
