-- ===== src/Flow/Run/Drain.antt =====
-- What becomes of the batches that wait for the balancer (src/proxy/loader.cc): each client of theirs
-- gets a backend from src/proxy/proxy_server.cc.
use rproxy.Base.{
  ℕ, Bool, true, ◌≡◌, refl, sym, ap, Option, some, List, [], ◌∷◌, Result, ◌>>=◌, Option-cases, inl,
  inr, arith,
}
use mathlib.Core.Path.{subst}
use rproxy.Base.Eq.{nat_eq}
use rproxy.Base.Maps.{is_some, find, has_key, contains}
use rproxy.Network.Addr.{InetAddr}
use rproxy.Network.Demultiplex.{Demultiplex}
use rproxy.Proxy.Loader.Queue.Keys.{balancing-Carries}
use rproxy.Proxy.Server.{ProxyServer, Kernel}
use rproxy.Proxy.Server.Pipe.{Moves}
use rproxy.Proxy.Server.Pairs.{KernelLaws}
use rproxy.Proxy.Server.Forward.{Keeps, AllServed}
use rproxy.Proxy.Server.Outcome.{SomeUnreached}
use rproxy.Proxy.Loader.Reach.{BackendUnreached, balancing-among}
use rproxy.Flow.{Names, System, balance_step}
use rproxy.Flow.Serving.{Ends, Forwarded, balance_step-Ends, served}
use rproxy.Flow.Run.{Round, of_balancer, step, run, IsSound}
use rproxy.Flow.Run.Sound.{Ends-weaken, Ends-then, Forwarded-IsSound}

-- A round of the balancer for each batch
abbrev pub one_each : List (List ℕ) → List Round
one_each [] = []
one_each (batch ∷ rest) = of_balancer ∷ one_each rest

-- All clients of the batches have a backend.
abbrev pub AllHave : List (List ℕ) → ProxyServer → Type 0
AllHave [] p = Unit {0}
AllHave (batch ∷ rest) p =
    ((fd : ℕ) → contains fd batch ≡ true → has_key fd p.reversed_map ≡ true) × AllHave rest p

-- No batch waits, the clients of those that waited have backends, and those that had one keep it.
abbrev pub IsDrained :
    {S : Type 0} → Names → (ℕ → S → Bool) → List (List ℕ) → ProxyServer → System S → Type 0
IsDrained names is_open queue p sys =
    IsSound names is_open sys
    × (sys.balancer.sock_queue ≡ [])
    × Keeps p sys.proxy
    × AllHave queue sys.proxy

have_still :
    (batch : List ℕ) (p p' : ProxyServer)
    → Keeps p p'
    → ((fd : ℕ) → contains fd batch ≡ true → has_key fd p.reversed_map ≡ true)
    → (fd : ℕ) → contains fd batch ≡ true
    → has_key fd p'.reversed_map ≡ true
unfolding has_key
have_still batch p p' keeps have fd member = elim (Option-cases (find fd p.reversed_map)) [
  | inl gone ↦ absurd (ground (arith, have fd member, gone))
  | inr (b, known) ↦ ap is_some (keeps fd b known)
]

module _ {S : Type 0} (names : Names) (k : Kernel S) (is_open : ℕ → S → Bool)
    (laws : KernelLaws k is_open) (moves : Moves k) where
  all_served :
      (batch : List ℕ) (pairs : List (ℕ × InetAddr)) (p : ProxyServer)
      → ((fd : ℕ) → has_key fd pairs ≡ contains fd batch)
      → AllServed pairs p
      → (fd : ℕ) → contains fd batch ≡ true
      → has_key fd p.reversed_map ≡ true
  unfolding has_key
  all_served batch pairs p keys all fd member = elim (Option-cases (find fd pairs)) [
    | inl gone ↦ absurd (ground (arith, keys fd, gone, member))
    | inr (addr, known) ↦ served names k is_open laws moves fd addr pairs p known all
  ]

  module _ (dmp : ℕ → Demultiplex) (peer : ℕ → InetAddr) (write : ℕ → List ℕ → Option ℕ) where
    balancer_runs :
        (sys : System S) (r : Result (System S))
        → balance_step names k sys ≡ some r
        → step names k dmp peer write of_balancer sys ≡ r
    unfolding step
    balancer_runs sys r now = rw (step, now) refl

    drains :
        (queue : List (List ℕ)) (sys : System S)
        → sys.balancer.sock_queue ≡ queue
        → IsSound names is_open sys
        → Ends
            (BackendUnreached k sys.balancer.backend)
            (IsDrained names is_open queue sys.proxy)
            (run names k dmp peer write (one_each queue) sys)
    unfolding run step
    drains [] sys q v = (v, q, (λ c b e. e), tt)
    drains (batch ∷ rest) sys q v =
        let (pairs, shared, keys) = balancing-Carries batch sys.balancer v.backed in
        let (r, now, ends) =
          balance_step-Ends names k is_open laws moves sys batch rest pairs v.wired.told_proxy
            v.wired.different v.valid q shared in
        let taken : System S = record sys {
          balancer = record sys.balancer { sockes = batch; sock_queue = rest };
        } in
        subst
          (λ q.
            Ends (BackendUnreached k sys.balancer.backend)
              (IsDrained names is_open (batch ∷ rest) sys.proxy)
              (q >>= λ sys'. run names k dmp peer write (one_each rest) sys'))
          (sym (balancer_runs sys r now))
          (Ends-then (SomeUnreached k pairs) (BackendUnreached k sys.balancer.backend)
            (Forwarded names k is_open laws moves pairs taken)
            (IsDrained names is_open (batch ∷ rest) sys.proxy) r
            (λ sys'. run names k dmp peer write (one_each rest) sys') ends
            (balancing-among k batch sys.balancer pairs shared)
            (λ sys₁ e f.
              Ends-weaken (BackendUnreached k sys₁.balancer.backend)
                (BackendUnreached k sys.balancer.backend) (IsDrained names is_open rest sys₁.proxy)
                (IsDrained names is_open (batch ∷ rest) sys.proxy)
                (run names k dmp peer write (one_each rest) sys₁)
                (λ x u. subst (λ lb. BackendUnreached k lb.backend x) f.3.1 u)
                (λ sys₂ (sound, empty, keeps, have). (
                  sound,
                  empty,
                  λ c b known. keeps c b (f.1 c b known),
                  (
                    have_still batch sys₁.proxy sys₂.proxy keeps
                        (all_served batch pairs sys₁.proxy keys f.2),
                    have,
                  ),
                ))
                (drains rest sys₁ (ap (λ lb. lb.sock_queue) f.3.1) (
                  Forwarded-IsSound names k is_open laws moves pairs sys taken sys₁ v refl refl refl
                    f))))

    -- The balancer runs once for each batch that waits, in a program whose parts are as they should be
    -- between the rounds: unless that throws the runtime_error by which the kernel refused a connection
    -- to one of the balancer's backends, no batch waits afterwards, each client of the batches has a backend, clients that had one keep it, and the parts are as they should be
    -- again.
    pub run-IsDrained :
        (sys : System S)
        → IsSound names is_open sys
        → Ends
            (BackendUnreached k sys.balancer.backend)
            (IsDrained names is_open sys.balancer.sock_queue sys.proxy)
            (run names k dmp peer write (one_each sys.balancer.sock_queue) sys)
    run-IsDrained sys v = drains sys.balancer.sock_queue sys refl v
