-- ===== src/Flow/Stale.antt =====
-- What the proxy server (src/proxy/proxy_server.cc) knows of a client that hangs up, once its
-- descriptor is given to another client.
use rproxy.Base.{ℕ, Bool, true, ◌≡◌, refl, Option, none, some, List, [], ◌∷◌, ◌++◌, arith, ok}
use rproxy.Base.Eq.{nat_eq}
use rproxy.Base.Maps.{find}
use rproxy.Network.Addr.{InetAddr}
use rproxy.Network.Demultiplex.{Demultiplex}
use rproxy.Network.Server.Wait.{IsSettled, AreDistinct, ended_by, handed_on, wait_all-Hands}
use rproxy.Pubsub.Event.{Resp}
use rproxy.Proxy.Server.{ProxyServer, Kernel, update_for_forward}
use rproxy.Proxy.Server.Outcome.{Goes, SomeUnreached, Goes-weaken}
use rproxy.Proxy.Server.Pipe.{Moves}
use rproxy.Proxy.Server.Pairs.{KernelLaws, IsValid}
use rproxy.Proxy.Server.Forward.{Keeps, AllServed, update_for_forward-Serves}
use rproxy.Flow.{Names, System, client_step}
use rproxy.Flow.Delivery.{IsWired, client_step-Queues}

-- The client of the proxy server has this backend, whose socket is open.
abbrev pub HasBackend : {S : Type 0} → (ℕ → S → Bool) → ℕ → ℕ → ProxyServer → S → Type 0
HasBackend is_open fd b p s = (find fd p.reversed_map ≡ some b) × (is_open b s ≡ true)

module _ {S : Type 0} (names : Names) (k : Kernel S) (is_open : ℕ → S → Bool)
    (laws : KernelLaws k is_open) (moves : Moves k) where
  -- The events of different clients, under which the client `fd` hangs up, at a TCP server whose
  -- connections have nothing left to send, where the center tells the balancer alone of the events:
  -- the TCP server ends the connection, but the proxy server is told nothing. The backend `b` that
  -- `fd` had stays connected, and whatever batch comes next, even one that names `fd` with another
  -- address: unless the kernel refuses a connection to one of its addresses, `fd` still has the backend `b` afterwards. A new
  -- client that is given the same descriptor goes on with the connection of the old one.
  pub client_step-HasBackend :
      (dmp : ℕ → Demultiplex) (peer : ℕ → InetAddr) (write : ℕ → List ℕ → Option ℕ)
      (resps : List Resp) (sys : System S) (fd b : ℕ) (batch : List (ℕ × InetAddr))
      → IsSettled sys.server
      → AreDistinct resps
      → IsWired names sys
      → IsValid is_open sys.proxy sys.kernel
      → ended_by resps fd ≡ true
      → find fd sys.proxy.reversed_map ≡ some b
      → (sys' : System S) × (client_step names k dmp peer write resps sys ≡ ok sys')
        × (find fd sys'.server.conn_map ≡ none)
        × (sys'.proxy ≡ sys.proxy)
        × HasBackend is_open fd b sys'.proxy sys'.kernel
        × Goes
            (SomeUnreached k batch)
            (HasBackend is_open fd b)
            (update_for_forward k batch sys'.proxy sys'.kernel)
  client_step-HasBackend dmp peer write resps sys fd b batch settled d w v ended has =
      let clients = handed_on sys.server.conn_map resps in
      let (sv, run, left, same_id) = wait_all-Hands dmp peer write resps sys.server settled d in
      let (c, stepped, same_receivers) =
        client_step-Queues names k dmp peer write resps sys sv clients run w in
      (
        record sys {
          center = c;
          server = sv;
          balancer = record sys.balancer { sock_queue = sys.balancer.sock_queue ++ (clients ∷ []) };
        },
        stepped,
        ground (arith, left fd, ended),
        refl,
        (has, v.opened b fd (v.paired.back fd b has)),
        Goes-weaken (SomeUnreached k batch) (SomeUnreached k batch)
            (λ p s. IsValid is_open p s × Keeps sys.proxy p × AllServed batch p)
            (HasBackend is_open fd b) (update_for_forward k batch sys.proxy sys.kernel) (λ e f. f)
            (λ p s g. (g.1 fd b has, g.0.opened b fd (g.0.paired.back fd b (g.1 fd b has))))
            (update_for_forward-Serves k is_open laws moves batch sys.proxy sys.kernel v),
      )
