-- ===== src/Flow/Tests.antt =====
-- The parts together at a concrete input.
use rproxy.Base.{ℕ, ◌≡◌, refl, List, [], ◌∷◌, none, some, arith, Result, ok, false}
use rproxy.Base.Eq.{nat_eq}
use rproxy.Base.Maps.{find, has_key, contains}
use rproxy.Network.Server.Wait.{handed_on}
use rproxy.Network.Server.Clients.{
  loop, peer, refuses, two_clients, two_clients-IsSettled, two_clients-AllSteady, resps,
  resps-AreDistinct,
}
use rproxy.Pubsub.Event.{balance, forward}
use rproxy.Pubsub.Center.{Center, receivers, set_of}
use rproxy.Proxy.Loader.{LoadBalancer}
use rproxy.Proxy.Server.Slow.{
  home, slow, given, slow-KernelLaws, slow-Moves, serving, serving-IsValid,
}
use rproxy.Flow.{Names, System, client_step, balance_step}
use rproxy.Pubsub.Event.{Resp}
use rproxy.Proxy.Server.{update_for_forward}
use rproxy.Proxy.Server.Outcome.{Goes, SomeUnreached}
use rproxy.Flow.Stale.{HasBackend, client_step-HasBackend}
use rproxy.Flow.Run.{Round, of_clients, of_balancer, of_backends, IsSound, Halts, run}
use rproxy.Flow.Run.Sound.{run-IsSound}
use rproxy.Flow.Run.Drain.{IsDrained, one_each, run-IsDrained}
use rproxy.Proxy.Loader.Reach.{BackendUnreached}
use rproxy.Flow.Delivery.{IsWired}
use rproxy.Flow.Serving.{Ends, AllHaveBackends, clients-AllHaveBackends}

abbrev names : Names
names = record { balancer_pub = 4; balancer_sub = 20; proxy_sub = 21 }

-- The center of a program whose parts are registered and subscribed.
abbrev wired : Center
wired = record {
  publishers = (9, 100) ∷ (4, 101) ∷ [];
  subscribers = (9, (balance, 20 ∷ []) ∷ []) ∷ (4, (forward, 21 ∷ []) ∷ []) ∷ [];
  traffic = [];
}

abbrev one_backend : LoadBalancer
one_backend = record {
  backend = (1 ∷ [], home) ∷ [];
  checked = [];
  sock_queue = [];
  sockes = [];
  text = [];
  stopped = false;
}

abbrev program : System ℕ
program = record {
  center = wired;
  server = two_clients;
  balancer = one_backend;
  proxy = serving;
  kernel = 10;
}

program-IsWired : IsWired names program
unfolding receivers set_of has_key find
program-IsWired = record { told_balancer = refl; told_proxy = refl; different = λ e. omega arith }

clients-AllHaveBackends_example :
    (sys₁ : System ℕ) × (r : Result (System ℕ)) × (client_step names slow loop peer refuses resps
        program
      ≡ ok sys₁)
    × (balance_step names slow sys₁ ≡ some r)
    × Ends
        (BackendUnreached slow one_backend.backend)
        (AllHaveBackends names slow given slow-KernelLaws slow-Moves
          (handed_on two_clients.conn_map resps)
          program)
        r
clients-AllHaveBackends_example =
    clients-AllHaveBackends names slow given slow-KernelLaws slow-Moves loop peer refuses resps
      program two_clients-IsSettled resps-AreDistinct program-IsWired
      (serving-IsValid 10 (omega arith)) (omega arith) refl

-- Client 7 hangs up.
abbrev leaving : List Resp
leaving = record { fd = 7; events = 0x2011 } ∷ []

client_step-HasBackend_example :
    (sys' : System ℕ) × (client_step names slow loop peer refuses leaving program ≡ ok sys')
    × (find 7 sys'.server.conn_map ≡ none)
    × (sys'.proxy ≡ serving)
    × HasBackend given 7 5 sys'.proxy sys'.kernel
    × Goes
        (SomeUnreached slow ((7, home) ∷ []))
        (HasBackend given 7 5)
        (update_for_forward slow ((7, home) ∷ []) sys'.proxy sys'.kernel)
unfolding find contains
client_step-HasBackend_example =
    client_step-HasBackend names slow given slow-KernelLaws slow-Moves loop peer refuses leaving
      program 7 5 ((7, home) ∷ []) two_clients-IsSettled (refl, tt) program-IsWired
      (serving-IsValid 10 (omega arith)) refl refl

program-IsSound : IsSound names given program
program-IsSound = record {
  wired = program-IsWired;
  settled = two_clients-AllSteady;
  backed = omega arith;
  valid = serving-IsValid 10 (omega arith);
}

-- The backend 5 has an answer, client 7 has bytes and client 8 leaves, and the balancer runs twice.
abbrev rounds : List Round
rounds =
    of_backends (record { fd = 5; events = 0x1 } ∷ [])
    ∷ of_clients resps
    ∷ of_balancer
    ∷ of_balancer
    ∷ []

run-IsSound_example :
    Ends
      (Halts names slow loop peer refuses rounds program)
      (IsSound names given)
      (run names slow loop peer refuses rounds program)
unfolding has_key find contains
run-IsSound_example =
    run-IsSound names slow given slow-KernelLaws slow-Moves loop peer refuses rounds program
      (tt, (λ s₁ e₁. (resps-AreDistinct, (λ s₂ e₂. (tt, (λ s₃ e₃. (tt, λ s₄ e₄. tt)))))))
      program-IsSound

-- Two batches wait.
abbrev two_batches : System ℕ
two_batches = record program {
  balancer = record one_backend { sock_queue = (6 ∷ 7 ∷ []) ∷ (8 ∷ []) ∷ [] };
}

run-IsDrained_example :
    Ends
      (BackendUnreached slow two_batches.balancer.backend)
      (IsDrained names given two_batches.balancer.sock_queue serving)
      (run names slow loop peer refuses (one_each two_batches.balancer.sock_queue) two_batches)
run-IsDrained_example =
    run-IsDrained names slow given slow-KernelLaws slow-Moves loop peer refuses two_batches
      (record {
        wired = record {
          told_balancer = program-IsWired.told_balancer;
          told_proxy = program-IsWired.told_proxy;
          different = program-IsWired.different;
        };
        settled = two_clients-AllSteady;
        backed = omega arith;
        valid = serving-IsValid 10 (omega arith);
      })
