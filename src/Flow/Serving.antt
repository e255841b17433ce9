-- ===== src/Flow/Serving.antt =====
-- From the events of the clients to a backend for each: src/network/tcp_server.cc,
-- src/pubsub/pub_sub.cc, src/proxy/loader.cc and src/proxy/proxy_server.cc together.
use rproxy.Base.{
  ℕ, ◌<◌, ◌==◌, Bool, true, false, ◌≡◌, ◌≢◌, refl, ap, ◌∙◌, Option, some, List, [], ◌∷◌, ◌++◌,
  length, arith, Result, ok, err, ◌>>=◌, Failure, ==_refl, Bool-cases, inl, inr,
}
use rproxy.Base.Eq.{nat_eq, same}
use rproxy.Base.Maps.{find, has_key, contains}
use rproxy.Network.Addr.{InetAddr}
use rproxy.Network.Demultiplex.{Demultiplex}
use rproxy.Network.Server.Wait.{IsSettled, AreDistinct, handed_on, wait_all-Hands}
use rproxy.Pubsub.Event.{PubType, forward, Context, forward_ctx, Resp}
use rproxy.Pubsub.Center.{Center, receivers}
use rproxy.Pubsub.Center.Delivery.{looked_up, receivers-looked_up, receivers-traffic}
use rproxy.Proxy.Loader.{LoadBalancer, balancing}
use rproxy.Proxy.Loader.Batches.{round_lem}
use rproxy.Proxy.Server.{ProxyServer, Kernel, update_for_forward}
use rproxy.Proxy.Server.Outcome.{Goes, SomeUnreached}
use rproxy.Proxy.Server.Pipe.{Moves}
use rproxy.Proxy.Server.Pairs.{KernelLaws, IsValid}
use rproxy.Proxy.Server.Forward.{Keeps, AllServed, update-forward, update_for_forward-Serves}
use rproxy.Flow.{Names, System, keep_lookup, proxy_update, handle, balance_step, client_step}
use rproxy.Flow.Batch.{handed_on-Distinct, balancing_all}
use rproxy.Proxy.Loader.Reach.{BackendUnreached, balancing-among}
use rproxy.Flow.Delivery.{IsWired, publish_one, client_step-Queues}

-- The round goes well, or throws one of the failures `F`.
abbrev pub Ends :
    {S : Type 0} → (Failure → Type 0) → (System S → Type 0) → Result (System S) → Type 0
Ends F P (ok sys) = P sys
Ends F P (err e) = F e

module _ {S : Type 0} (names : Names) (k : Kernel S) (is_open : ℕ → S → Bool)
    (laws : KernelLaws k is_open) (moves : Moves k) where
  -- The TCP server, the balancer and whom the center tells are as they were.
  abbrev pub Spares : System S → System S → Type 0
  Spares sys sys' =
      (sys'.server ≡ sys.server)
      × (sys'.balancer ≡ sys.balancer)
      × ((i : ℕ) (t : PubType) → receivers i t sys'.center ≡ receivers i t sys.center)

  -- Afterwards the proxy server is valid, the clients of the batch have backends, and all others that
  -- had one keep it; the other parts do not change.
  abbrev pub Forwarded : List (ℕ × InetAddr) → System S → System S → Type 0
  Forwarded pairs sys sys' =
      IsValid is_open sys'.proxy sys'.kernel
      × Keeps sys.proxy sys'.proxy
      × AllServed pairs sys'.proxy
      × Spares sys sys'

  carry :
      (pairs : List (ℕ × InetAddr)) (sys : System S) (c : Center) (r : Result (ProxyServer × S))
      → ((i : ℕ) (t : PubType) → receivers i t c ≡ receivers i t sys.center)
      → Goes
          (SomeUnreached k pairs)
          (λ p s. IsValid is_open p s × Keeps sys.proxy p × AllServed pairs p)
          r
      → Ends (SomeUnreached k pairs) (Forwarded pairs sys) (
          (r >>= λ record { 0 = p; 1 = s }.
          ok (record sys { center = p.center; proxy = p; kernel = s }))
          >>= λ sys'. ok (keep_lookup c sys'))
  carry pairs sys c (ok (p, s)) same_receivers g = (
    g.0,
    g.1,
    g.2,
    (refl, refl, λ i t. receivers-traffic i t c p.center.traffic ∙ same_receivers i t),
  )
  carry pairs sys c (err e) same_receivers g = g

  proxy_update-Ends :
      (pairs : List (ℕ × InetAddr)) (sys : System S) (c : Center)
      → ((i : ℕ) (t : PubType) → receivers i t c ≡ receivers i t sys.center)
      → IsValid is_open sys.proxy sys.kernel
      → Ends (SomeUnreached k pairs) (Forwarded pairs sys) (
          proxy_update names k (record { event_type = forward; body = forward_ctx pairs }) sys
          >>= λ sys'. ok (keep_lookup c sys'))
  unfolding proxy_update
  proxy_update-Ends pairs sys c same_receivers v =
      let p : ProxyServer = record sys.proxy { center = sys.center } in
      let valid : IsValid is_open p sys.kernel = record {
        paired = v.paired;
        opened = v.opened;
        turn = v.turn;
      } in
      rw (update-forward k pairs p sys.kernel) (
        carry pairs sys c (update_for_forward k pairs p sys.kernel) same_receivers
          (update_for_forward-Serves k is_open laws moves pairs p sys.kernel valid))

  -- A round of the balancer with a batch that it can share out.
  pub balance_step-Ends :
      (sys : System S) (batch : List ℕ) (rest : List (List ℕ)) (pairs : List (ℕ × InetAddr))
      → receivers names.balancer_pub forward sys.center ≡ names.proxy_sub ∷ []
      → names.balancer_sub ≢ names.proxy_sub
      → IsValid is_open sys.proxy sys.kernel
      → sys.balancer.sock_queue ≡ batch ∷ rest
      → balancing batch sys.balancer ≡ ok pairs
      → (r : Result (System S)) × (balance_step names k sys ≡ some r)
        × Ends
            (SomeUnreached k pairs)
            (Forwarded pairs
              (record sys { balancer = record sys.balancer { sockes = batch; sock_queue = rest } }))
            r
  unfolding balance_step handle
  balance_step-Ends sys batch rest pairs told different v queued shared = (
    _,
    rw
        (
          balance_step,
          round_lem batch rest sys.balancer pairs queued shared,
          publish_one names k names.balancer_pub names.proxy_sub forward ctx taken told,
          other,
          ==_refl names.proxy_sub,
        )
        refl,
    proxy_update-Ends pairs taken (looked_up names.balancer_pub forward sys.center)
        (λ i t. receivers-looked_up names.balancer_pub i forward t sys.center) v,
  )
    where
      ctx : Context
      ctx = record { event_type = forward; body = forward_ctx pairs }

      taken : System S
      taken = record sys { balancer = record sys.balancer { sockes = batch; sock_queue = rest } }

      other : (names.proxy_sub == names.balancer_sub) ≡ false
      other = ground (arith, different)

  -- A client of a batch has a backend, if the batch is served.
  pub served :
      (fd : ℕ) (addr : InetAddr) (pairs : List (ℕ × InetAddr)) (p : ProxyServer)
      → find fd pairs ≡ some addr
      → AllServed pairs p
      → has_key fd p.reversed_map ≡ true
  unfolding find
  served fd addr [] p e a = absurd cc
  served fd addr ((j, b) ∷ rest) p e a = elim (Bool-cases (same j fd)) [
    | inl here ↦ rw ((nat_eq.beq_iff j fd).0 here) at a.0
    | inr there ↦ served fd addr rest p (ground (arith, there)) a.1
  ]

  -- The clients that a list of events hands on have a backend, and clients that had one keep it.
  abbrev pub AllHaveBackends : List ℕ → System S → System S → Type 0
  AllHaveBackends clients sys sys' =
      IsValid is_open sys'.proxy sys'.kernel
      × Keeps sys.proxy sys'.proxy
      × ((fd : ℕ) → contains fd clients ≡ true → has_key fd sys'.proxy.reversed_map ≡ true)

  all_have :
      (clients : List ℕ) (pairs : List (ℕ × InetAddr)) (sys sys₁ : System S)
      → sys₁.proxy ≡ sys.proxy
      → (r : Result (System S))
      → ((fd : ℕ) → contains fd clients ≡ true → (addr : InetAddr) × (find fd pairs ≡ some addr))
      → ((x : Failure) → SomeUnreached k pairs x → BackendUnreached k sys.balancer.backend x)
      → Ends (SomeUnreached k pairs) (Forwarded pairs sys₁) r
      → Ends (BackendUnreached k sys.balancer.backend) (AllHaveBackends clients sys) r
  all_have clients pairs sys sys₁ e (ok sys₂) each among f = (
    f.0,
    λ c b h. f.1 c b (ap (λ p. find c p.reversed_map) e ∙ h),
    λ fd member. served fd (each fd member).0 pairs sys₂.proxy (each fd member).1 f.2,
  )
  all_have clients pairs sys sys₁ e (err x) each among f = among x f

  -- The events of different clients, at a center that tells the balancer alone of the clients' events
  -- and the proxy server alone of the batches, with a TCP server whose connections have nothing left
  -- to send, a balancer that has a backend and no batch waiting, and a proxy server whose maps are
  -- inverse to each other, its backends open: the TCP server handles them without a fault, and the
  -- next round of the balancer's loop does not wait. Unless that throws the runtime_error by which the
  -- kernel refused a connection to one of the balancer's backends, each client that the TCP server handed on has a backend after that round, clients that
  -- had one keep it, and the maps of the proxy server are inverse to each other.
  pub clients-AllHaveBackends :
      (dmp : ℕ → Demultiplex) (peer : ℕ → InetAddr) (write : ℕ → List ℕ → Option ℕ)
      (resps : List Resp) (sys : System S)
      → IsSettled sys.server
      → AreDistinct resps
      → IsWired names sys
      → IsValid is_open sys.proxy sys.kernel
      → 0 < length sys.balancer.backend
      → sys.balancer.sock_queue ≡ []
      → (sys₁ : System S) × (r : Result (System S)) × (client_step names k dmp peer write resps sys
          ≡ ok sys₁)
        × (balance_step names k sys₁ ≡ some r)
        × Ends
            (BackendUnreached k sys.balancer.backend)
            (AllHaveBackends (handed_on sys.server.conn_map resps) sys)
            r
  clients-AllHaveBackends dmp peer write resps sys settled d w v some_backend idle =
      let clients = handed_on sys.server.conn_map resps in
      let (sv, run, left, same_id) = wait_all-Hands dmp peer write resps sys.server settled d in
      let (c, stepped, same_receivers) =
        client_step-Queues names k dmp peer write resps sys sv clients run w in
      let lb : LoadBalancer = record sys.balancer {
        sock_queue = sys.balancer.sock_queue ++ (clients ∷ []);
      } in
      let sys₁ : System S = record sys { center = c; server = sv; balancer = lb } in
      let taken : System S = record sys₁ {
        balancer = record lb { sockes = clients; sock_queue = [] };
      } in
      let (pairs, shared, each) =
        balancing_all lb clients some_backend (handed_on-Distinct sys.server.conn_map resps d) in
      let (r, round, ends) =
        balance_step-Ends sys₁ clients [] pairs
          (same_receivers names.balancer_pub forward ∙ w.told_proxy) w.different v
          (ap (λ q. q ++ (clients ∷ [])) idle) shared in
      (
        sys₁,
        r,
        stepped,
        round,
        all_have clients pairs sys taken refl r each (balancing-among k clients lb pairs shared)
            ends,
      )
