-- ===== src/Flow.antt =====
-- How the parts work together: the client's events of src/network/tcp_server.cc go through the center
-- of src/pubsub/pub_sub.cc to the balancer of src/proxy/loader.cc, and its batches to the server of
-- src/proxy/proxy_server.cc.
pub mod Delivery
pub mod Batch
pub mod Serving
pub mod Stale
pub mod Run
mod Tests
use rproxy.Base.{ℕ, Option, none, some, List, ◌==◌, if◌then◌else◌, Result, ok, ◌>>=◌}
use rproxy.Network.Addr.{InetAddr}
use rproxy.Network.Demultiplex.{Demultiplex}
use rproxy.Network.Server.{TcpServer, wait_all}
use rproxy.Pubsub.Event.{PubType, balance, forward, Context, balance_ctx, Resp}
use rproxy.Pubsub.Center.{Center, notify_subscriber}
use rproxy.Proxy.Loader
use rproxy.Proxy.Loader.{LoadBalancer, loadbalance_round}
use rproxy.Proxy.Server
use rproxy.Proxy.Server.{ProxyServer, Kernel}

-- The identities that the parts were given.
pub record Names : Type 0 where
  pub balancer_pub : ℕ
  pub balancer_sub : ℕ
  pub proxy_sub : ℕ

-- The parts, with the one center that they share. What the records of the two servers hold of a center
-- is put in and taken out at each call.
pub record System (S : Type 0) : Type 0 where
  pub center : Center
  pub server : TcpServer
  pub balancer : LoadBalancer
  pub proxy : ProxyServer
  pub kernel : S

-- The center `c` of a notification, with the accounts that the subscribers made.
abbrev pub keep_lookup : {S : Type 0} → Center → System S → System S
keep_lookup c sys = record sys { center = record c { traffic = sys.center.traffic } }

module _ {S : Type 0} (names : Names) (k : Kernel S) where
  -- A call of the proxy server, on the shared center.
  unfoldable pub proxy_update : Context → System S → Result (System S)
  proxy_update ctx sys = do
    (p, s) ← Server.update k ctx (record sys.proxy { center = sys.center }) sys.kernel
    ok (record sys { center = p.center; proxy = p; kernel = s })

  pub balancer_update : Context → System S → Result (System S)
  balancer_update ctx sys = do
    lb ← Loader.update ctx sys.balancer
    ok (record sys { balancer = lb })

  -- `sub->update(ctx)`, by the subscriber.
  pub handle : ℕ → Context → System S → Result (System S)
  handle sub ctx sys =
      if sub == names.balancer_sub
      then balancer_update ctx sys
      else if sub == names.proxy_sub
      then proxy_update ctx sys
      else ok sys

  -- `center_->notifySubscriber(id, type, ctx)`. The center that the call leaves has the sets that it
  -- looked up, and the accounts that the subscribers made.
  pub publish : ℕ → PubType → Context → System S → Result (System S)
  publish id t ctx sys = do
    (c, sys') ← notify_subscriber handle id t ctx sys.center sys
    ok (keep_lookup c sys')

  -- One round of `loadbalance`, in its thread: `none` where it waits.
  unfoldable pub balance_step : System S → Option (Result (System S))
  balance_step sys = elim (loadbalance_round sys.balancer) [
    | none ↦ none
    | some round ↦ some (
        round >>= λ record { 0 = lb; 1 = ctx }.
        publish names.balancer_pub forward ctx (record sys { balancer = lb }))
  ]

  -- `updateForWait` of the TCP server, in the thread of a demultiplexer: the sockets are published as
  -- a BALANCE event.
  module _ (dmp : ℕ → Demultiplex) (peer : ℕ → InetAddr) (write : ℕ → List ℕ → Option ℕ) where
    pub client_step : List Resp → System S → Result (System S)
    client_step resps sys = do
      (sv, sockes) ← wait_all dmp peer write resps sys.server
      publish sys.server.id balance (record { event_type = balance; body = balance_ctx sockes })
          (record sys { server = sv })
