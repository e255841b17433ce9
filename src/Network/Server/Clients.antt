-- ===== src/Network/Server/Clients.antt =====
-- A server with two clients, and events, for the tests of src/network/tcp_server.cc.
use rproxy.Base.{ℕ, ◌≡◌, refl, ap, some, true, false, List, [], ◌∷◌, Option, none, arith}
use rproxy.Base.Eq.{nat_eq}
use rproxy.Base.Maps.{find, contains}
use rproxy.Network.Addr.{InetAddr}
use rproxy.Network.Buffer.{Buffer, readable_bytes}
use rproxy.Network.Buffer.Invariant.{readable_bytes_lem}
use rproxy.Network.Demultiplex.{Demultiplex, default_events}
use rproxy.Network.Connection.{TcpConnection}
use rproxy.Pubsub.Event.{Resp, dmp_register, register_ctx}
use rproxy.Network.Server.{TcpServer}
use rproxy.Network.Server.Wait.{IsSettled, AreDistinct}
use rproxy.Network.Server.Steady.{AllSteady}

abbrev pub home : InetAddr
home = record { ip = 49 ∷ []; port = 80 }

abbrev pub loop : ℕ → Demultiplex
loop fd = record { id = 1; dmpfd = 3; notify = true }

abbrev pub peer : ℕ → InetAddr
peer fd = home

abbrev pub refuses : ℕ → List ℕ → Option ℕ
refuses fd bytes = none

abbrev pub nothing : Buffer
nothing = record { reader = 0; writer = 0; bytes = [] }

abbrev pub client : ℕ → TcpConnection
client fd = record {
  sockfd = fd;
  channel = record { left = false; socket = fd };
  recv_buffer = nothing;
  send_buffer = nothing;
  connected = true;
  context = record { event_type = dmp_register; body = register_ctx fd default_events none };
}

abbrev pub two_clients : TcpServer
two_clients = record {
  id = 9;
  conn_map = (7, client 7) ∷ (8, client 8) ∷ [];
  total_conn = 2;
  center = record { publishers = []; subscribers = []; traffic = [] };
  effects = [];
}

pub two_clients-IsSettled : IsSettled two_clients
unfolding find
two_clients-IsSettled fd c e = (ground (arith, e), ground (arith, e, idle))
  where
    idle : readable_bytes nothing ≡ 0
    idle = readable_bytes_lem (omega arith)

client_of : (fd : ℕ) (c : TcpConnection) → find fd two_clients.conn_map ≡ some c → c ≡ client fd
unfolding find
client_of fd c e = ground (arith, e)

pub two_clients-AllSteady : AllSteady two_clients
two_clients-AllSteady fd c e =
    let (about, idle) = two_clients-IsSettled fd c e in
    (
      ap (λ x. x.sockfd) (client_of fd c e),
      about,
      idle,
      default_events,
      none,
      ap (λ x. x.context.body) (client_of fd c e),
    )

-- 7 can be read, 8 hangs up, and 6 is unknown.
abbrev pub resps : List Resp
resps =
    record { fd = 7; events = 0x1 }
    ∷ record { fd = 8; events = 0x2011 }
    ∷ record { fd = 6; events = 0x1 }
    ∷ []

pub resps-AreDistinct : AreDistinct resps
unfolding contains
resps-AreDistinct = (refl, (refl, (refl, tt)))
