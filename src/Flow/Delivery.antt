-- ===== src/Flow/Delivery.antt =====
-- Where an event of the one part arrives: the center of src/pubsub/pub_sub.cc with the balancer and
-- the proxy server as its only subscribers.
use rproxy.Base.{
  ℕ, ◌≡◌, ◌≢◌, refl, ◌∙◌, Option, List, [], ◌∷◌, ◌++◌, Result, ok, err, ◌>>=◌, ==_refl,
}
use rproxy.Network.Addr.{InetAddr}
use rproxy.Network.Demultiplex.{Demultiplex}
use rproxy.Network.Server.{TcpServer, wait_all}
use rproxy.Pubsub.Event.{PubType, balance, forward, Context, balance_ctx, Resp}
use rproxy.Pubsub.Center.{Center, receivers}
use rproxy.Pubsub.Center.Delivery.{looked_up, notify_one, receivers-looked_up, receivers-traffic}
use rproxy.Proxy.Loader.Batches.{update_balance}
use rproxy.Proxy.Server.{Kernel}
use rproxy.Flow.{Names, System, keep_lookup, balancer_update, handle, publish, client_step}

-- The balancer alone is told of the clients' events, and the proxy server alone of the batches.
pub record IsWired {S : Type 0} (names : Names) (sys : System S) : Type 0 where
  pub told_balancer : receivers sys.server.id balance sys.center ≡ names.balancer_sub ∷ []
  pub told_proxy : receivers names.balancer_pub forward sys.center ≡ names.proxy_sub ∷ []
  pub different : names.balancer_sub ≢ names.proxy_sub

abbrev paired : {A C : Type 0} → C → A → Result (C × A)
paired c a = ok (c, a)

then_ok :
    {A B C : Type 0} (c : C) (g : C → A → B) (r : Result A)
    → (r >>= paired c >>= λ p. ok (g p.0 p.1)) ≡ (r >>= λ a. ok (g c a))
then_ok c g (ok a) = refl
then_ok c g (err e) = refl

module _ {S : Type 0} (names : Names) (k : Kernel S) where
  pub publish_one :
      (id sub : ℕ) (t : PubType) (ctx : Context) (sys : System S)
      → receivers id t sys.center ≡ sub ∷ []
      → publish names k id t ctx sys
        ≡ (handle names k sub ctx sys >>= λ sys'. ok (keep_lookup (looked_up id t sys.center) sys'))
  unfolding publish
  publish_one id sub t ctx sys e =
      rw (notify_one (handle names k) id sub t ctx sys.center sys e)
        (then_ok (looked_up id t sys.center) keep_lookup (handle names k sub ctx sys))

  -- A batch goes to the end of the balancer's queue, and nothing else changes but the server.
  module _ (dmp : ℕ → Demultiplex) (peer : ℕ → InetAddr) (write : ℕ → List ℕ → Option ℕ) where
    pub client_step-Queues :
        (resps : List Resp) (sys : System S) (sv : TcpServer) (sockes : List ℕ)
        → wait_all dmp peer write resps sys.server ≡ ok (sv, sockes)
        → IsWired names sys
        → (c : Center) × (client_step names k dmp peer write resps sys
            ≡ ok (record sys {
              center = c;
              server = sv;
              balancer = record sys.balancer {
                sock_queue = sys.balancer.sock_queue ++ (sockes ∷ []);
              };
            }))
          × ((i : ℕ) (u : PubType) → receivers i u c ≡ receivers i u sys.center)
    unfolding client_step handle balancer_update
    client_step-Queues resps sys sv sockes run w = (
      record (looked_up sys.server.id balance sys.center) { traffic = sys.center.traffic },
      rw
          (
            run,
            publish_one sys.server.id names.balancer_sub balance batch told w.told_balancer,
            ==_refl names.balancer_sub,
            update_balance sockes sys.balancer,
          )
          refl,
      λ i u.
          receivers-traffic i u (looked_up sys.server.id balance sys.center) sys.center.traffic
          ∙ receivers-looked_up sys.server.id i balance u sys.center,
    )
      where
        batch : Context
        batch = record { event_type = balance; body = balance_ctx sockes }

        told : System S
        told = record sys { server = sv }
