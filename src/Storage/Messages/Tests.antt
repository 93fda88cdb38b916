-- ===== src/Storage/Messages/Tests.antt =====
-- A store with one preference (abstract_storage.h).
use stacx.Prelude.{◌≡◌, refl, false, [], ◌∷◌}
use stacx.Prelude.Text.{lit}
use stacx.Platform.Example.{board}
use stacx.Storage.{Storage}
use stacx.Storage.Messages.{Overrides, receive, response}
use stacx.Storage.Messages.Roundtrip.{receive-get_set, receive-set_from_payload}

abbrev in_memory : Overrides board
in_memory = record {
  load = λ s name. s;
  save = λ s name. s;
  base_command = λ s topic payload. response s [];
  base_receive = λ s topic payload. response s [];
  base_wants = λ s topic. false;
}

abbrev store : Storage board
store = record { values = (lit "gain", lit "3") ∷ []; pref_defaults = []; pref_descriptions = [] }

receive-get_set_example :
    ((receive in_memory
        (receive in_memory store (lit "set/pref/gain") (lit "7")).after
        (lit "get/pref/gain")
        []).published
      ≡ (lit "status/pref/gain", lit "7") ∷ [])
    × ((receive in_memory
          (receive in_memory store (lit "set/pref/gain") (lit "7")).after
          (lit "get/pref")
          (lit "gain")).published
        ≡ (lit "status/pref/gain", lit "7") ∷ [])
receive-get_set_example = receive-get_set in_memory store (lit "gain") (lit "7")

receive-set_from_payload_example :
    receive in_memory store (lit "set/pref") (lit "gain 7")
    ≡ receive in_memory store (lit "set/pref/gain") (lit "7")
receive-set_from_payload_example =
    receive-set_from_payload in_memory store (lit "gain") (lit "7") refl (λ e. cc)
