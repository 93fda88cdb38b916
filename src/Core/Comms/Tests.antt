-- ===== src/Core/Comms/Tests.antt =====
-- Examples of the state of the communications.
use stacx.Prelude.{◌≡◌, refl, true, false, [], ◌∷◌}
use stacx.Prelude.Text.{lit}
use stacx.Prelude.Int.{pos}
use stacx.Core.Blink.{idle, starting, initial_off, hello_on, hello_update}
use stacx.Core.Comms.{
  Comms, publish, light, undefined, online, offline, red, green, idle_pattern, idle_color, indicate,
  comms_state_name, comms_state, set_identify,
}
use stacx.Core.Comms.Reverting.{request_all, transactions, transactions-revert}

abbrev booted : Comms
booted = record {
  hello_pixel = true;
  stacx_comms_state = undefined;
  stacx_comms_state_prev = undefined;
  pattern = record {
    identify = false;
    do_blink = true;
    blink_rate = 5000;
    blink_duty = 1;
    has_fault_code = true;
  };
  hello_color = red;
  blinker = record {
    phase = idle;
    post_error_code = 0;
    post_error_reps = pos 0;
    post_rep = 0;
    post_blink = 0;
  };
}

went_online :
    (comms_state false online booted).1
    ≡ light hello_on ∷ publish (lit "_comms_state") (lit "ONLINE") ∷ []
unfolding comms_state indicate idle_pattern idle_color hello_update comms_state_name
went_online = refl

-- Offline looks like waiting for the modem.
offline_rate : (comms_state false offline booted).0.pattern.blink_rate ≡ 100
unfolding comms_state indicate idle_pattern idle_color hello_update comms_state_name
offline_rate = refl

-- Identification hides what comes, and its end shows it.
identified :
    (set_identify false false
      (comms_state false online (set_identify false true booted).0).0).0.hello_color
    ≡ green
unfolding set_identify comms_state indicate idle_pattern idle_color hello_update comms_state_name
identified = refl

abbrev during_code : Comms
during_code = record booted { blinker = record booted.blinker { phase = starting } }

-- A state that is announced during an error code makes a step of the code at once.
hurried : (comms_state false online during_code).0.blinker.phase ≡ initial_off
unfolding comms_state indicate idle_pattern idle_color hello_update comms_state_name
hurried = refl

transactions-revert_example :
    let announced = (comms_state false online booted).0 in
    let returned = request_all false (transactions 2) announced in
    (returned.stacx_comms_state ≡ online)
    × (returned.pattern ≡ announced.pattern)
    × (returned.hello_color ≡ announced.hello_color)
transactions-revert_example = transactions-revert false online 1 booted refl
