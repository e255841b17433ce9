-- ===== src/Network/Server/Tests.antt =====
-- `TcpServer` of src/network/tcp_server.cc at concrete inputs.
use rproxy.Base.{
  ℕ, length, min, some, ◌<◌, ◌≡◌, refl, List, [], ◌∷◌, Option, none, if◌then◌else◌, arith, ok,
}
use rproxy.Base.Eq.{nat_eq}
use rproxy.Base.Maps.{find, has_key, assign}
use rproxy.Network.Buffer.{Buffer}
use rproxy.Network.Buffer.Invariant.{contents}
use rproxy.Network.Demultiplex.{Effect, default_events}
use rproxy.Network.Connection.{send}
use rproxy.Pubsub.Event.{Context, dmp_register, register_ctx}
use rproxy.Network.Server.{TcpServer, wait_all, dispatch, update}
use rproxy.Network.Server.Stall.{Stalls, send-Stalls}
use rproxy.Network.Server.Wait.{handed_on, ended_by, wait_all-Hands}
use rproxy.Network.Server.Steady.{Stays, registers, update-Stays}
use rproxy.Network.Server.Clients.{
  loop, peer, refuses, client, two_clients, two_clients-IsSettled, two_clients-AllSteady, resps,
  resps-AreDistinct,
}

wait_all-Hands_example :
    (sv' : TcpServer) × (wait_all loop peer refuses resps two_clients
      ≡ ok (sv', handed_on two_clients.conn_map resps))
    × ((j : ℕ)
        → find j sv'.conn_map ≡ (if ended_by resps j then none else find j two_clients.conn_map))
    × (sv'.id ≡ two_clients.id)
wait_all-Hands_example =
    wait_all-Hands loop peer refuses resps two_clients two_clients-IsSettled resps-AreDistinct

-- A kernel that takes two bytes at most.
abbrev takes_two : List ℕ → Option ℕ
takes_two bytes = some (min 2 (length bytes))

send-Stalls_example :
    (b : Buffer) × (sent : List ℕ) × (effects : List Effect) × (send takes_two
        (1 ∷ 2 ∷ 3 ∷ [])
        3
        (loop 7)
        (client 7)
      ≡ ok (record (client 7) { send_buffer = b }, sent, effects))
    × (0 < length (contents b))
    × Stalls 7 b loop (
        dispatch loop peer refuses effects (record two_clients {
          conn_map = assign 7 (record (client 7) { send_buffer = b }) two_clients.conn_map;
        }))
unfolding find
send-Stalls_example =
    send-Stalls loop peer refuses takes_two (1 ∷ 2 ∷ 3 ∷ []) 3 two_clients (client 7) none refl refl
      refl (omega arith) refl (omega arith) (omega arith) (omega arith)

-- A third client
abbrev third : Context
third = record { event_type = dmp_register; body = register_ctx 9 default_events none }

update-Stays_example : Stays (update loop peer refuses third two_clients)
unfolding has_key find
update-Stays_example =
    update-Stays loop peer refuses third two_clients (registers 9 default_events none refl)
      two_clients-AllSteady
