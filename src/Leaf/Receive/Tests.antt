-- ===== src/Leaf/Receive/Tests.antt =====
-- Messages to the sample lamp (`mqtt_receive` of leaf.h).
use stacx.Prelude.{◌≡◌, ◌⊎◌, refl, true, false, none, some, [], ◌∷◌, Option, arith}
use stacx.Prelude.Text.{lit}
use stacx.Prelude.Int.{pos}
use stacx.Platform.Example.{board}
use stacx.Fault.{ok}
use stacx.Storage.{Storage}
use stacx.Leaf.Value.{int_cell}
use stacx.Leaf.Prefs.{load_pref, save_pref}
use stacx.Leaf.Prefs.Roundtrip.{load_pref-save_pref}
use stacx.Leaf.Tests.{quiet, lamp, flash, dimmed, dimmed_runs}
use stacx.Leaf.State.{Leaf}
use stacx.Leaf.Action.{Outcome, stats_pub}
use stacx.Leaf.Topic.{wants_topic, wants_command}
use stacx.Leaf.Command.{resolve_command, resolve_exact}
use stacx.Leaf.Receive.{Message, Virtuals, receive, receive_command, done}
use stacx.Leaf.Receive.Wanted.{IsHandlers, wanted_is_handled}
use stacx.Leaf.Receive.Returns.{Returns, receive-Returns}
use stacx.Leaf.Values.Persistence.{is_int, is_str}
use stacx.Leaf.Values.Soundness.{SoundValues, pointed}
use stacx.Leaf.Values.Preservation.{set_value-SoundValues}
use stacx.Leaf.Receive.Wildcards.{wildcard_unreachable}

abbrev pub lamp_leaf : Leaf board
lamp_leaf = record {
  values = lamp;
  leaf_unit = [];
  leaf_priority = [];
  base_topic = lit "devices/kitchen/light/lamp/";
  impersonate_backplane = false;
  leaf_mute = false;
  do_status = true;
  class_debug_level = pos 0;
  run = true;
  started = true;
  ip_leaf = none;
  pubsub_leaf = none;
  cmd_descriptions = (lit "blink", lit "blink once") ∷ (lit "flash/+", lit "flash often") ∷ [];
  leaf_cmd_descriptions = (lit "fade", lit "fade out") ∷ [];
}

-- Any command is answered by the statistics.
abbrev answering : Virtuals board
answering = record { hooks = quiet; command_handler = λ l m. done l stats_pub }

abbrev blink : Message
blink = record { type = lit "light"; name = lit "lamp"; topic = lit "cmd/blink"; payload = [] }

abbrev blinked : Outcome board
blinked = done lamp_leaf stats_pub

blink_wanted : wants_topic lamp_leaf (lit "cmd/blink") ≡ true
unfolding wants_topic wants_command
blink_wanted = refl

blink_runs : receive answering lamp_leaf blink false ≡ ok blinked
unfolding receive receive_command resolve_command resolve_exact
blink_runs = refl

wanted_is_handled_example :
    (blinked.handled ≡ true) ⊎ IsHandlers answering lamp_leaf blink false blinked
wanted_is_handled_example =
    wanted_is_handled answering lamp_leaf blink false blinked blink_wanted refl blink_runs

wildcard_unreachable_example :
    (wants_topic lamp_leaf (lit "cmd/flash/3") ≡ false)
    × (resolve_command lamp_leaf (lit "flash/3") ≡ some (lit "flash/3"))
wildcard_unreachable_example =
    wildcard_unreachable lamp_leaf (lit "flash") (lit "3") refl (lit "flash often") refl refl refl
      (λ e. cc)

load_pref-save_pref_example :
    (p : Option (Storage board)) × (load_pref
        (save_pref (some flash) (lit "gain") (int_cell (pos 7)))
        (lit "gain")
        (int_cell (pos 0))
      ≡ ok (int_cell (pos 7), p))
load_pref-save_pref_example =
    load_pref-save_pref flash (lit "gain") (int_cell (pos 7)) (int_cell (pos 0)) (omega arith) tt

lamp-SoundValues : SoundValues lamp
lamp-SoundValues = (pointed 0 refl (is_int (pos 5)), (pointed 1 refl (is_str (lit "A17")), tt))

receive-Returns_example : Returns (receive answering lamp_leaf blink false)
receive-Returns_example = receive-Returns lamp_leaf answering blink false lamp-SoundValues

set_value-SoundValues_example : SoundValues dimmed.after
set_value-SoundValues_example =
    set_value-SoundValues quiet (λ s name v. refl) (λ f s topic v payload sound. sound) lamp
      (lit "level") (lit "12") true true dimmed lamp-SoundValues dimmed_runs
