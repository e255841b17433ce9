-- ===== src/Lifetime.antt =====
-- How the objects that talk through the center come and go: the constructors and destructors of
-- `Demultiplex` (src/network/demultiplex.cc), `LoopThreadGroup` (group.hpp), `Acceptor`
-- (acceptor.hpp), `TcpServer` (tcp_server.cc), `ProxyServer` (src/proxy/proxy_server.cc) and
-- `LoadBalancer` (src/proxy/loader.cc), on the center and, for the TCP server, on the kernel.
pub mod View
pub mod Group
pub mod Server
pub mod Proxy
pub mod Wiring
pub mod Bare
mod Tests
use rproxy.Base.{
  ℕ, Bool, true, false, not, Option, none, some, List, [], ◌∷◌, map, Result, ok, err, ◌>>=◌, ◌>>◌,
  require, runtime_error, assertion, endless,
}
use rproxy.Network.Demultiplex.{Demultiplex, enable_notify}
use rproxy.Network.Socket.{
  Calls, StreamSocket, open_socket, listen, reuse_addr_port, set_non_blocking,
}
use rproxy.Pubsub.Event.{PubType, accepted, dmp_register, dmp_modify, dmp_delete, dmp_wait}
use rproxy.Pubsub.Center.{Center, register_pub, un_register_pub, subscribe, un_subscribe}

-- What the constructor of a `Demultiplex` is given: its identity, its place in memory, and the answer
-- of `epoll_create`.
pub record Given : Type 0 where
  pub id : ℕ
  pub this : ℕ
  pub epoll : Option ℕ

-- `Demultiplex()`
pub open_demultiplex : Given → Center → Result (Demultiplex × Center)
open_demultiplex m c = elim m.epoll [
  | none ↦ err runtime_error
  | some fd ↦ (do
    c' ← register_pub m.id (some m.this) c
    ok (record { id = m.id; dmpfd = fd; notify = true }, c'))
]

-- `init(n)`: the demultiplexers, in order.
pub open_all : List Given → Center → Result (List Demultiplex × Center)
open_all [] c = ok ([], c)
open_all (m ∷ ms) c = do (d, c₁) ← open_demultiplex m c; (ds, c₂) ← open_all ms c₁; ok (d ∷ ds, c₂)

abbrev pub is_empty {ℓ} : {A : Type ℓ} → List A → Bool
is_empty [] = true
is_empty (x ∷ xs) = false

pub init_group : List Given → Center → Result (List Demultiplex × Center)
init_group ms c = do require (not (is_empty ms)) assertion; open_all ms c

-- `joinAll()`: a thread of the group ends where `stop_` of the group is set; a `join` of one that does
-- not end does not return.
pub join_all : Bool → Result (Unit {0})
join_all stopped = require stopped endless

-- `stop_` of an `EventLoop` and `stop_` of its group
pub record Flags : Type 0 where
  pub loop_stop : Bool
  pub group_stop : Bool

-- What the constructors set.
pub new_flags : Flags
new_flags = record { loop_stop = false; group_stop = false }

-- `LoopThreadGroup::stop`
pub stop_group : Flags → Flags
stop_group f = record f { group_stop = true }

-- `EventLoop::stop`, and `~EventLoop`
pub stop_loop : Flags → Result Flags
stop_loop f = do let f' = record f { loop_stop = true }; join_all f'.group_stop; ok f'

-- `~Demultiplex` of each
pub close_all : List Demultiplex → Center → Center
close_all [] c = c
close_all (d ∷ ds) c = close_all ds (un_register_pub d.id c)

-- One publisher's events, in order
pub subscribe_each : ℕ → List PubType → ℕ → Center → Result Center
subscribe_each id [] this c = ok c
subscribe_each id (t ∷ ts) this c =
    subscribe id t (some this) c >>= λ c'. subscribe_each id ts this c'

pub un_subscribe_each : ℕ → List PubType → ℕ → Center → Result Center
un_subscribe_each id [] this c = ok c
un_subscribe_each id (t ∷ ts) this c =
    un_subscribe id t (some this) c >>= λ c'. un_subscribe_each id ts this c'

-- The events `ts` of each demultiplexer
pub subscribe_all : List Demultiplex → List PubType → ℕ → Center → Result Center
subscribe_all [] ts this c = ok c
subscribe_all (d ∷ ds) ts this c =
    subscribe_each d.id ts this c >>= λ c'. subscribe_all ds ts this c'

pub un_subscribe_all : List Demultiplex → List PubType → ℕ → Center → Result Center
un_subscribe_all [] ts this c = ok c
un_subscribe_all (d ∷ ds) ts this c =
    un_subscribe_each d.id ts this c >>= λ c'. un_subscribe_all ds ts this c'

-- What a `TcpServer` subscribes to
abbrev pub server_events : List PubType
server_events = dmp_register ∷ dmp_modify ∷ dmp_delete ∷ dmp_wait ∷ []

-- `server_`, the identity of `acceptor_`, and the demultiplexers and the flags of `loop_`
pub record Parts : Type 0 where
  pub server : StreamSocket
  pub acceptor : ℕ
  pub dmpes : List Demultiplex
  pub flags : Flags

module _ {S : Type 0} (k : Calls S) where
  -- `Acceptor(serverfd)`
  pub open_acceptor : ℕ → ℕ → ℕ → S → Center → Result (S × Center)
  open_acceptor id acceptor_this serverfd s c = do
    s' ← listen k serverfd s
    c' ← register_pub id (some acceptor_this) c
    ok (s', c')

  -- `TcpServer(ip, port, subloop)`
  pub open_server :
      List ℕ → List ℕ → ℕ → ℕ → List Given → ℕ → S → Center → Result (Parts × S × Center)
  open_server ip port id acceptor_this ms this s c = do
    (server, s₁) ← open_socket k ip port s
    (s₂, c₁) ← open_acceptor id acceptor_this server.sockfd s₁ c
    (dmpes, c₂) ← init_group ms c₁
    s₃ ← listen k server.sockfd s₂
    s₄ ← reuse_addr_port k server s₃
    c₃ ← subscribe id accepted (some this) c₂
    c₄ ← subscribe_all dmpes server_events this c₃
    ok (
      record { server = server; acceptor = id; dmpes = dmpes; flags = new_flags },
      set_non_blocking k server.sockfd s₄,
      c₄,
    )

  -- The first part of `~TcpServer`
  pub un_subscribe_server : Parts → ℕ → Center → Result Center
  un_subscribe_server ps this c = do
    c' ← un_subscribe ps.acceptor accepted (some this) c
    un_subscribe_all ps.dmpes server_events this c'

  -- `~TcpServer`, of a server without connections, and the destructors of what it is made of.
  pub close_server : Parts → ℕ → S → Center → Result (S × Center)
  close_server ps this s c = do
    c' ← un_subscribe_server ps this c
    flags ← stop_loop ps.flags
    ended ← stop_loop flags
    ok (
      k.close ps.server.sockfd (k.close ps.server.sockfd s),
      un_register_pub ps.acceptor (close_all ps.dmpes c'),
    )

-- `ProxyServer(n_thread)`, where `piped` says whether `pipe2` succeeded.
pub open_proxy : Bool → List Given → ℕ → ℕ → Center → Result (List Demultiplex × Center)
open_proxy piped ms pub_id this c = do
  require piped runtime_error
  (dmpes, c₁) ← init_group ms c
  let quiet = map (enable_notify false) dmpes
  c₂ ← subscribe_all quiet (dmp_wait ∷ []) this c₁
  c₃ ← register_pub pub_id (some this) c₂
  ok (quiet, c₃)

-- `~ProxyServer` and `~LoopThreadGroup`. `stopped` is `stop_` of its group, which `stop` of the server
-- does not set.
pub close_proxy : Bool → List Demultiplex → ℕ → Center → Result Center
close_proxy stopped dmpes this c = do
  c' ← un_subscribe_all dmpes (dmp_wait ∷ []) this c
  join_all stopped
  ok (close_all dmpes c')

-- `LoadBalancer()` at the center
pub open_balancer : ℕ → ℕ → Center → Result Center
open_balancer pub_id this c = register_pub pub_id (some this) c

-- `~LoadBalancer` at the center
pub close_balancer : ℕ → Center → Center
close_balancer pub_id c = un_register_pub pub_id c

-- `subscribe(pubID, type)` of the TCP server, the balancer and the proxy server
pub subscribe_to : ℕ → PubType → ℕ → Center → Result Center
subscribe_to pub_id t this c = subscribe pub_id t (some this) c
