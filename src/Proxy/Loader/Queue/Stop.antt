-- ===== src/Proxy/Loader/Queue/Stop.antt =====
-- How the thread of `loadbalance` (src/proxy/loader.cc) ends.
use rproxy.Base.{
  ℕ, zero, suc, ◌<◌, ◌≡◌, refl, ap, List, [], ◌∷◌, ◌++◌, length, replicate, arith, ok,
}
use rproxy.Base.Eq.{nat_eq}
use rproxy.Pubsub.Event.{Context, forward, forward_ctx}
use rproxy.Proxy.Loader.{LoadBalancer, stop, update_for_loadbalance, loadbalance_round}
use rproxy.Proxy.Loader.Batches.{round_lem}
use rproxy.Proxy.Loader.Queue.{
  at_test, at_wait, at_end, Balancing, publishes, stops, runs, run_thread, step, run,
}
use rproxy.Proxy.Loader.Queue.Keys.{Carries, balancing-Carries}

waits :
    (n : ℕ) (g : Balancing)
    → g.place ≡ at_wait
    → g.balancer.sock_queue ≡ []
    → run (replicate n runs) g ≡ ok g
unfolding run step run_thread loadbalance_round
waits zero g p q = refl
waits (suc n) g p q =
    let still : run_thread g ≡ ok g = ground (arith, p, q) in rw still (waits n g p q)

-- A thread of `loadbalance` that waits for a batch does not see that `stop` is called: however often
-- it runs, it waits. A batch that is published then, where there is a backend, is still handed to the
-- subscribers, and only after that does the thread end.
pub stop-Lingers :
    (n : ℕ) (batch : List ℕ) (g : Balancing)
    → g.place ≡ at_wait
    → g.balancer.sock_queue ≡ []
    → 0 < length g.balancer.backend
    → let g₁ : Balancing = record g { balancer = stop g.balancer } in
      (run (stops ∷ replicate n runs) g ≡ ok g₁)
      × (g₂ : Balancing) × (ctx : Context) × (run (publishes batch ∷ runs ∷ runs ∷ []) g₁ ≡ ok g₂)
      × (g₂.place ≡ at_end)
      × (g₂.forwarded ≡ g.forwarded ++ (ctx ∷ []))
      × Carries batch ctx
unfolding run step run_thread stop update_for_loadbalance loadbalance_round
stop-Lingers n batch g p q h =
    let (pairs, shared, keys) = balancing-Carries batch told h in
    let ctx : Context = record { event_type = forward; body = forward_ctx pairs } in
    let stopped : Balancing = record g { balancer = told } in
    let taken : Balancing = record {
      balancer = record told { sockes = batch; sock_queue = [] };
      place = at_test;
      forwarded = g.forwarded ++ (ctx ∷ []);
    } in
    let handed : run_thread (record g { balancer = update_for_loadbalance batch told }) ≡ ok taken =
      ground (
        arith,
        p,
        round_lem batch [] (update_for_loadbalance batch told) pairs (ap (λ b. b ++ (batch ∷ [])) q)
            shared,
      ) in
    (
      waits n stopped p q,
      record taken { place = at_end },
      ctx,
      rw handed refl,
      refl,
      refl,
      (pairs, refl, keys),
    )
  where
    told : LoadBalancer
    told = stop g.balancer
