-- ===== src/Proxy/Loader/Queue/Tests.antt =====
-- The thread of `loadbalance` (src/proxy/loader.cc) at concrete inputs.
use rproxy.Base.{ℕ, ◌≡◌, refl, false, List, [], ◌∷◌, ◌++◌, replicate, arith, ok}
use rproxy.Base.Eq.{nat_eq, text_eq}
use rproxy.Network.Addr.{InetAddr}
use rproxy.Pubsub.Event.{Context}
use rproxy.Proxy.Loader.{LoadBalancer, stop}
use rproxy.Proxy.Loader.Queue.{
  at_test, at_wait, at_end, Balancing, Event, publishes, stops, runs, run,
}
use rproxy.Proxy.Loader.Queue.Keys.{Carries}
use rproxy.Proxy.Loader.Queue.Stop.{stop-Lingers}

abbrev home : InetAddr
home = record { ip = 49 ∷ []; port = 80 }

abbrev with_queue : List (List ℕ) → LoadBalancer
with_queue queue = record {
  backend = (1 ∷ [], home) ∷ [];
  checked = [];
  sock_queue = queue;
  sockes = [];
  text = [];
  stopped = false;
}

abbrev two_waiting : Balancing
two_waiting = record {
  balancer = with_queue ((7 ∷ []) ∷ (8 ∷ 9 ∷ []) ∷ []);
  place = at_test;
  forwarded = [];
}

abbrev in_between : List Event
in_between = runs ∷ publishes (6 ∷ []) ∷ runs ∷ stops ∷ publishes [] ∷ runs ∷ []

abbrev waiting : Balancing
waiting = record { balancer = with_queue []; place = at_wait; forwarded = [] }

stop-Lingers_example :
    let g₁ : Balancing = record waiting { balancer = stop waiting.balancer } in
    (run (stops ∷ replicate 3 runs) waiting ≡ ok g₁)
    × (g₂ : Balancing) × (ctx : Context) × (run (publishes (7 ∷ []) ∷ runs ∷ runs ∷ []) g₁ ≡ ok g₂)
    × (g₂.place ≡ at_end)
    × (g₂.forwarded ≡ waiting.forwarded ++ (ctx ∷ []))
    × Carries (7 ∷ []) ctx
stop-Lingers_example = stop-Lingers 3 (7 ∷ []) waiting refl refl (omega arith)
