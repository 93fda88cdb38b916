-- ===== src/Core/Comms/Looks.antt =====
-- What the status light is to show for each state of the communications (stacx.h: `comms_state`).
use stacx.Prelude.{ℕ, ◌≡◌, refl, ap, ◌∙◌, Bool, true, false, if◌then◌else◌, [], ◌∷◌}
use stacx.Core.Blink.{Pattern, hello_on}
use stacx.Core.Comms.{
  CommsState, undefined, offline, revert, wait_modem, try_modem, wait_ip, try_ip, try_gps,
  wait_pubsub, try_pubsub, online, transaction, Color, Comms, CommsStep, light, both, idle_pattern,
  idle_color, indicate, comms_state, is_transaction, wanted, red, brown, magenta, orange, yellow,
  greenyellow, cyan, green, blue,
}

-- What the status light is to show: the pattern, and the colour where it has one.
pub record Look : Type 0 where
  pub pattern : Pattern
  pub hello_color : Color

abbrev pub look_of : Comms → Look
look_of s = record { pattern = s.pattern; hello_color = s.hello_color }

abbrev pub styled : ℕ → ℕ → Color → Bool → Look → Look
styled cycle duty c pixel l = record {
  pattern = record l.pattern { blink_rate = cycle; blink_duty = duty };
  hello_color = if pixel then c else l.hello_color;
}

-- The look of each state.
abbrev pub look : CommsState → Bool → Look → Look
look undefined pixel l = l
look revert pixel l = l
look offline pixel l = styled 100 1 brown pixel l
look wait_modem pixel l = styled 100 1 brown pixel l
look try_modem pixel l = styled 100 50 magenta pixel l
look wait_ip pixel l = styled 250 1 orange pixel l
look try_ip pixel l = styled 250 50 yellow pixel l
look try_gps pixel l = styled 250 50 cyan pixel l
look wait_pubsub pixel l = styled 500 1 greenyellow pixel l
look try_pubsub pixel l = styled 500 50 cyan pixel l
look online pixel l = styled 5000 1 green pixel l
look transaction pixel l = styled 1000 50 blue pixel l

-- What the switch keeps: the states, and what the build and identification are.
pub record Kept : Type 0 where
  pub hello_pixel : Bool
  pub now : CommsState
  pub before : CommsState

abbrev pub kept_of : Comms → Kept
kept_of s = record {
  hello_pixel = s.hello_pixel;
  now = s.stacx_comms_state;
  before = s.stacx_comms_state_prev;
}

-- Both, for a state and what it becomes.
abbrev Becomes : (Bool → Look → Look) → Comms → Comms → Type 0
Becomes f s t = (look_of t ≡ f s.hello_pixel (look_of s)) × (kept_of t ≡ kept_of s)

abbrev colored : Bool → Color → Comms → CommsStep
colored b c s = if b then (record s { hello_color = c }, light hello_on ∷ []) else (s, [])

colored-look :
    (b : Bool) (c : Color) (s : Comms)
    → (look_of (colored b c s).0
        ≡ record { pattern = s.pattern; hello_color = if b then c else s.hello_color })
      × (kept_of (colored b c s).0 ≡ kept_of s)
colored-look true c s = (refl, refl)
colored-look false c s = (refl, refl)

both-Becomes :
    (cycle duty : ℕ) (c : Color) (s : Comms)
    → Becomes (styled cycle duty c) s (both cycle duty c s).0
unfolding idle_pattern idle_color
both-Becomes cycle duty c s = colored-look s.hello_pixel c (idle_pattern cycle duty s).0

pub styled-styled :
    (cycle duty old_cycle old_duty : ℕ) (c old : Color) (pixel : Bool) (l : Look)
    → styled cycle duty c pixel (styled old_cycle old_duty old pixel l)
      ≡ styled cycle duty c pixel l
styled-styled cycle duty old_cycle old_duty c old true l = refl
styled-styled cycle duty old_cycle old_duty c old false l = refl

pub styled-back :
    (cycle duty : ℕ) (c : Color) (pixel : Bool) (l : Look)
    → styled cycle duty c pixel (styled 1000 50 blue pixel (styled cycle duty c pixel l))
      ≡ styled cycle duty c pixel l
styled-back cycle duty c true l = refl
styled-back cycle duty c false l = refl

-- The switch.
indicate-Becomes : (t : CommsState) (s : Comms) → Becomes (look t) s (indicate t s).0
unfolding indicate
indicate-Becomes undefined s = (refl, refl)
indicate-Becomes revert s = (refl, refl)
indicate-Becomes offline s =
    let s1 : Comms = (both 50 50 red s).0 in
    let (look1, kept1) = both-Becomes 50 50 red s in
    let (look2, kept2) = both-Becomes 100 1 brown s1 in
    (
      look2
          ∙ ap (λ (k : Kept). styled 100 1 brown k.hello_pixel (look_of s1)) kept1
          ∙ ap (styled 100 1 brown s.hello_pixel) look1
          ∙ styled-styled 100 1 50 50 brown red s.hello_pixel (look_of s),
      kept2 ∙ kept1,
    )
indicate-Becomes wait_modem s = both-Becomes 100 1 brown s
indicate-Becomes try_modem s = both-Becomes 100 50 magenta s
indicate-Becomes wait_ip s = both-Becomes 250 1 orange s
indicate-Becomes try_ip s = both-Becomes 250 50 yellow s
indicate-Becomes try_gps s = both-Becomes 250 50 cyan s
indicate-Becomes wait_pubsub s = both-Becomes 500 1 greenyellow s
indicate-Becomes try_pubsub s = both-Becomes 500 50 cyan s
indicate-Becomes online s = both-Becomes 5000 1 green s
indicate-Becomes transaction s = both-Becomes 1000 50 blue s

-- The states and the look after a request.
abbrev pub View : Type 0
View = Kept × Look

abbrev pub view_of : Comms → View
view_of s = (kept_of s, look_of s)

abbrev pub request_view : CommsState → View → View
request_view x (k, l) =
    let target = wanted x k.before in
    (
      record {
        hello_pixel = k.hello_pixel;
        now = target;
        before = if is_transaction k.now then k.before else k.now;
      },
      if l.pattern.identify then l else look target k.hello_pixel l,
    )

shown-view :
    (b : Bool) (t : CommsState) (s : Comms)
    → (look_of (if b then (s, []) else indicate t s).0
        ≡ (if b then look_of s else look t s.hello_pixel (look_of s)))
      × (kept_of (if b then (s, []) else indicate t s).0 ≡ kept_of s)
shown-view true t s = (refl, refl)
shown-view false t s = indicate-Becomes t s

pub comms_state-view :
    (is_service : Bool) (x : CommsState) (s : Comms)
    → view_of (comms_state is_service x s).0 ≡ request_view x (view_of s)
unfolding comms_state
comms_state-view is_service x s =
    let target = wanted x s.stacx_comms_state_prev in
    let (look_eq, kept_eq) = shown-view s.pattern.identify target s in
    λ i. (
      record {
        hello_pixel = (kept_eq i).hello_pixel;
        now = target;
        before = if is_transaction (kept_eq i).now then (kept_eq i).before else (kept_eq i).now;
      },
      look_eq i,
    )
