-- ===== src/Proxy/Loader/Batches.antt =====
-- The batches of `LoadBalancer` (src/proxy/loader.cc) between `update` and `loadbalance`.
use rproxy.Base.{ℕ, ◌≡◌, refl, some, List, [], ◌∷◌, ◌++◌, arith, ok}
use rproxy.Network.Addr.{InetAddr}
use rproxy.Pubsub.Event.{balance, balance_ctx, forward, forward_ctx}
use rproxy.Proxy.Loader.{
  LoadBalancer, update, update_by_class, update_for_loadbalance, loadbalance_round, balancing,
}

-- The event of the TCP server is stored, whatever is stored already.
pub update_balance :
    (sockes : List ℕ) (lb : LoadBalancer)
    → update (record { event_type = balance; body = balance_ctx sockes }) lb
      ≡ ok (record lb { sock_queue = lb.sock_queue ++ (sockes ∷ []) })
unfolding update update_by_class update_for_loadbalance
update_balance sockes lb = refl

-- A round takes the oldest batch.
pub round_lem :
    (batch : List ℕ) (rest : List (List ℕ)) (lb : LoadBalancer) (pairs : List (ℕ × InetAddr))
    → lb.sock_queue ≡ batch ∷ rest
    → balancing batch lb ≡ ok pairs
    → loadbalance_round lb
      ≡ some (
          ok (
            record lb { sockes = batch; sock_queue = rest },
            record { event_type = forward; body = forward_ctx pairs },
          ))
unfolding loadbalance_round
round_lem batch rest lb pairs queued done = ground (arith, queued, done)
