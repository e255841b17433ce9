-- ===== src/Lifetime/Tests.antt =====
-- A `TcpServer` and a `ProxyServer` (src/network/tcp_server.cc, src/proxy/proxy_server.cc) that come
-- and go at a center without publishers.
use rproxy.Base.{ℕ, refl, some, List, [], ◌∷◌}
use rproxy.Base.Eq.{nat_eq}
use rproxy.Network.Socket.Local.{calls, calls-Grants, home_text}
use rproxy.Pubsub.Event.{pub_type_eq}
use rproxy.Lifetime.{Given, open_server}
use rproxy.Lifetime.Bare.{bare, bare-View}
use rproxy.Lifetime.Wiring.{Hears, open_server-Hears}
use rproxy.Lifetime.Server.{Wires, open_server-Wires}

-- Two demultiplexers
abbrev two : List Given
two =
    record { id = 1; this = 101; epoll = some 7 }
    ∷ record { id = 2; this = 102; epoll = some 8 }
    ∷ []

-- The port 80
abbrev port : List ℕ
port = b'8' ∷ b'0' ∷ []

open_server-Wires_example :
    Wires calls bare-View 3 two 100 (open_server calls home_text port 3 103 two 100 5 bare)
open_server-Wires_example =
    open_server-Wires calls bare-View calls-Grants home_text port 3 103 two 100 5 refl
      ((7, refl), ((8, refl), tt))

-- The identities as the counters of the files give them: the TCP server and its first demultiplexer have
-- 0, the acceptor has 1, as has the second demultiplexer, and the balancer has 0.
abbrev from_zero : List Given
from_zero =
    record { id = 0; this = 101; epoll = some 7 }
    ∷ record { id = 1; this = 102; epoll = some 8 }
    ∷ []

open_server-Hears_example :
    Hears calls bare-View 0 0 20 21 (open_server calls home_text port 1 103 from_zero 100 5 bare)
open_server-Hears_example =
    open_server-Hears calls bare-View calls-Grants home_text port 1 103 from_zero 100 5 refl
      ((7, refl), ((8, refl), tt)) 0 0 20 21 refl (λ i x. refl) (λ i x. refl)
