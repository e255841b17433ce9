-- ===== src/Flow/Run.antt =====
-- The threads of the program, one round after the other: new clients and the clients' events
-- (src/network/tcp_server.cc), the rounds of the balancer (src/proxy/loader.cc), and the backends'
-- events (src/proxy/proxy_server.cc), in any order.
pub mod Sound
pub mod Drain
use rproxy.Base.{
  ℕ, ◌<◌, Bool, false, ◌≡◌, Option, none, some, List, [], ◌∷◌, length, arith, Result, ok, ◌>>=◌,
  ◌⊎◌, Failure, out_of_range,
}
use rproxy.Base.Eq.{nat_eq}
use rproxy.Network.Addr.{InetAddr}
use rproxy.Network.Demultiplex.{Demultiplex, default_events}
use rproxy.Network.Server.{update}
use rproxy.Network.Server.Steady.{AllSteady}
use rproxy.Base.Maps.{has_key}
use rproxy.Network.Server.Wait.{AreDistinct}
use rproxy.Pubsub.Event.{dmp_register, dmp_wait, register_ctx, wait_ctx, Resp}
use rproxy.Proxy.Loader.Reach.{BackendUnreached}
use rproxy.Proxy.Server.{Kernel}
use rproxy.Proxy.Server.Pairs.{IsValid}
use rproxy.Proxy.Server.Wait.{AllKnown}
use rproxy.Flow.{Names, System, proxy_update, client_step, balance_step}
use rproxy.Flow.Delivery.{IsWired}

-- One round of one of the threads.
pub data Round : Type 0 where
  of_acceptor : (fd : ℕ) → Round
  of_clients : List Resp → Round
  of_balancer : Round
  of_backends : List Resp → Round

module _ {S : Type 0} (names : Names) (k : Kernel S) (dmp : ℕ → Demultiplex) (peer : ℕ → InetAddr)
    (write : ℕ → List ℕ → Option ℕ) where
  -- A new client, as the demultiplexer that it goes to notifies the TCP server of it.
  unfoldable pub accept_client : ℕ → System S → Result (System S)
  accept_client fd sys = do
    sv ←
        update dmp peer write
          (record {
            event_type = dmp_register;
            body = register_ctx fd default_events (some (dmp fd).id);
          })
          (record sys.server { center = sys.center })
    ok (record sys { center = sv.center; server = sv })

  -- The thread of the balancer stays where it waits for a batch.
  unfoldable pub step : Round → System S → Result (System S)
  step (of_acceptor fd) sys = accept_client fd sys
  step (of_clients resps) sys = client_step names k dmp peer write resps sys
  step of_balancer sys = elim (balance_step names k sys) [ none ↦ ok sys | some r ↦ r ]
  step (of_backends resps) sys =
      proxy_update names k (record { event_type = dmp_wait; body = wait_ctx resps }) sys

  unfoldable pub run : List Round → System S → Result (System S)
  run [] sys = ok sys
  run (e ∷ es) sys = step e sys >>= λ sys'. run es sys'

  -- Descriptors that have no connection and events of different clients, as the rounds come.
  abbrev pub Fits : Round → System S → Type 0
  Fits (of_acceptor fd) sys = has_key fd sys.server.conn_map ≡ false
  Fits (of_clients resps) sys = AreDistinct resps
  Fits of_balancer sys = Unit {0}
  Fits (of_backends resps) sys = Unit {0}

  abbrev pub AllFit : List Round → System S → Type 0
  AllFit [] sys = Unit {0}
  AllFit (e ∷ es) sys = Fits e sys × ((sys' : System S) → step e sys ≡ ok sys' → AllFit es sys')

  -- What a round may throw: the runtime_error by which the kernel refused a connection to one of the
  -- backends, in the balancer's round, and `out_of_range` in a round with an event of a descriptor
  -- that is no backend's, or with two events of one backend.
  abbrev pub Throws : Round → System S → Failure → Type 0
  Throws (of_acceptor fd) sys e = ⊥
  Throws (of_clients resps) sys e = ⊥
  Throws of_balancer sys e = BackendUnreached k sys.balancer.backend e
  Throws (of_backends resps) sys e = (e ≡ out_of_range) × ¬ AllKnown resps sys.proxy

  -- One of the rounds throws, in the state that those before it left.
  abbrev pub Halts : List Round → System S → Failure → Type 0
  Halts [] sys e = ⊥
  Halts (round ∷ rest) sys e =
      Throws round sys e ⊎ ((sys' : System S) × (step round sys ≡ ok sys') × Halts rest sys' e)

-- Between the rounds: the parts are subscribed to each other, the clients' connections stand under
-- their own descriptors with nothing left to send, there is a backend to choose, and the maps of the
-- proxy server are inverse to each other, its backends open.
pub record IsSound {S : Type 0} (names : Names) (is_open : ℕ → S → Bool) (sys : System S)
    : Type 0 where
  pub wired : IsWired names sys
  pub settled : AllSteady sys.server
  pub backed : 0 < length sys.balancer.backend
  pub valid : IsValid is_open sys.proxy sys.kernel
