-- ===== src/Ip/Clients/Tests.antt =====
-- Examples of the table of TCP clients.
use stacx.Prelude.{◌≡◌, refl, none, some, [], ◌∷◌, List}
use stacx.Prelude.Int.{pos}
use stacx.Ip.Clients.{Sessions, no_clients, tcp_connect, tcp_release}
use stacx.Ip.Clients.Refinement.{
  Request, dial, hang_up, run, handle, serve, view, IsTable, run-handle,
}

abbrev table : Sessions
unfolding no_clients
table = record { slots = no_clients 8; deleted = [] }

-- Two connections, one that fails and is deleted, and the release of the first.
abbrev requests : List Request
requests =
    dial (some 100) (pos 1)
    ∷ dial (some 200) (pos 2)
    ∷ dial (some 300) (pos 0)
    ∷ dial none (pos 1)
    ∷ hang_up 100
    ∷ []

deleted_clients : (run handle table requests).0.deleted ≡ 300 ∷ 100 ∷ []
unfolding run handle tcp_connect tcp_release no_clients
deleted_clients = refl

run-handle_example :
    ((run handle table requests).1 ≡ (run serve (view table.slots) requests).1)
    × (view (run handle table requests).0.slots ≡ (run serve (view table.slots) requests).0)
unfolding no_clients IsTable
run-handle_example = run-handle table requests refl
