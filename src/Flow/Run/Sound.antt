-- ===== src/Flow/Run/Sound.antt =====
-- What holds of the whole program between the rounds of its threads: src/network/tcp_server.cc,
-- src/proxy/loader.cc and src/proxy/proxy_server.cc together.
use rproxy.Base.{
  ℕ, ◌<◌, Bool, false, ◌≡◌, refl, sym, ap, ◌∙◌, Option, none, some, List, [], ◌∷◌, ◌++◌, length,
  arith, Result, ok, err, ◌>>=◌, OnOk, Failure, out_of_range, inl, inr,
}
use mathlib.Core.Path.{subst}
use rproxy.Base.Eq.{nat_eq}
use rproxy.Network.Addr.{InetAddr, to_string}
use rproxy.Network.Demultiplex.{Demultiplex, default_events}
use rproxy.Network.Server.{update}
use rproxy.Network.Server.Steady.{
  AllSteady, AllSteady-IsSettled, update_for_register_lem, emplace-AllSteady,
}
use rproxy.Base.Maps.{has_key, emplace}
use rproxy.Network.Server.Wait.{AreDistinct, handed_on, wait_all-Hands}
use rproxy.Pubsub.Event.{PubType, balance, forward, dmp_register, dmp_wait, wait_ctx, Resp}
use rproxy.Pubsub.Center.{Center, receivers, account}
use rproxy.Pubsub.Center.Delivery.{receivers-account}
use rproxy.Proxy.Loader.{loadbalance_round}
use rproxy.Proxy.Loader.Queue.Keys.{balancing-Carries}
use rproxy.Proxy.Server.{ProxyServer, Kernel, update_for_wait}
use rproxy.Proxy.Server.Pipe.{Moves}
use rproxy.Proxy.Server.Pairs.{KernelLaws, IsValid}
use rproxy.Proxy.Server.Wait.{AllKnown, update_for_wait-Leaves, update-wait}
use rproxy.Proxy.Server.Quiet.{HasCenter, update_for_wait-HasCenter}
use rproxy.Proxy.Server.Outcome.{Goes, SomeUnreached}
use rproxy.Proxy.Server.Strays.{update_for_wait-Goes}
use rproxy.Proxy.Loader.Reach.{BackendUnreached, balancing-among}
use rproxy.Flow.{Names, System, proxy_update, client_step, balance_step}
use rproxy.Flow.Delivery.{IsWired, client_step-Queues}
use rproxy.Flow.Serving.{Ends, Forwarded, balance_step-Ends}
use rproxy.Flow.Run.{
  Round, of_acceptor, of_clients, of_balancer, of_backends, accept_client, step, run, Fits, AllFit,
  Throws, Halts, IsSound,
}

-- The same publishers tell the same subscribers.
moved-IsWired :
    {S : Type 0} (names : Names) (sys sys' : System S)
    → IsWired names sys
    → sys'.server.id ≡ sys.server.id
    → ((i : ℕ) (t : PubType) → receivers i t sys'.center ≡ receivers i t sys.center)
    → IsWired names sys'
moved-IsWired names sys sys' w same_id same_receivers = record {
  told_balancer =
      same_receivers sys'.server.id balance
      ∙ ap (λ i. receivers i balance sys.center) same_id
      ∙ w.told_balancer;
  told_proxy = same_receivers names.balancer_pub forward ∙ w.told_proxy;
  different = w.different;
}

known_in :
    (resps : List Resp) (p : ProxyServer) (c : Center)
    → AllKnown resps p
    → AllKnown resps (record p { center = c })
known_in [] p c known = tt
known_in (r ∷ rest) p c (one, other, more) = (one, other, known_in rest p c more)

pub Ends-weaken :
    {S : Type 0} (F G : Failure → Type 0) (P Q : System S → Type 0) (r : Result (System S))
    → ((e : Failure) → F e → G e)
    → ((sys : System S) → P sys → Q sys)
    → Ends F P r
    → Ends G Q r
Ends-weaken F G P Q (ok sys) g h p = h sys p
Ends-weaken F G P Q (err e) g h p = g e p

pub Ends-then :
    {S : Type 0} (F G : Failure → Type 0) (P Q : System S → Type 0) (r : Result (System S))
    (f : System S → Result (System S))
    → Ends F P r
    → ((e : Failure) → F e → G e)
    → ((sys : System S) → r ≡ ok sys → P sys → Ends G Q (f sys))
    → Ends G Q (r >>= f)
Ends-then F G P Q (ok sys) f p g h = h sys refl p
Ends-then F G P Q (err e) f p g h = g e p

module _ {S : Type 0} (names : Names) (k : Kernel S) (is_open : ℕ → S → Bool)
    (laws : KernelLaws k is_open) (moves : Moves k) where
  -- What a round of the balancer with a batch leaves.
  pub Forwarded-IsSound :
      (pairs : List (ℕ × InetAddr)) (sys taken sys' : System S)
      → IsSound names is_open sys
      → taken.server ≡ sys.server
      → taken.center ≡ sys.center
      → taken.balancer.backend ≡ sys.balancer.backend
      → Forwarded names k is_open laws moves pairs taken sys'
      → IsSound names is_open sys'
  Forwarded-IsSound pairs sys taken sys' v sv c b (valid, keeps, all, (server, balancer, told)) =
      let same_server : sys'.server ≡ sys.server = server ∙ sv in
      record {
        wired =
            moved-IsWired names sys sys' v.wired (ap (λ x. x.id) same_server)
              (λ i t. told i t ∙ ap (receivers i t) c);
        settled = subst AllSteady (sym same_server) v.settled;
        backed = subst (λ x. 0 < length x) (sym (ap (λ x. x.backend) balancer ∙ b)) v.backed;
        valid = valid;
      }

  balance-IsSound :
      (queue : List (List ℕ)) (sys : System S)
      → sys.balancer.sock_queue ≡ queue
      → IsSound names is_open sys
      → Ends
          (BackendUnreached k sys.balancer.backend)
          (IsSound names is_open)
          (elim (balance_step names k sys) [ none ↦ ok sys | some r ↦ r ])
  unfolding balance_step loadbalance_round
  balance-IsSound [] sys q v = rw (balance_step, loadbalance_round, q) v
  balance-IsSound (batch ∷ rest) sys q v =
      let (pairs, shared, keys) = balancing-Carries batch sys.balancer v.backed in
      let (r, now, ends) =
        balance_step-Ends names k is_open laws moves sys batch rest pairs v.wired.told_proxy
          v.wired.different v.valid q shared in
      let taken : System S = record sys {
        balancer = record sys.balancer { sockes = batch; sock_queue = rest };
      } in
      rw now (
        sound pairs taken r refl refl refl (balancing-among k batch sys.balancer pairs shared) ends)
    where
      sound :
          (pairs : List (ℕ × InetAddr)) (taken : System S) (r : Result (System S))
          → taken.server ≡ sys.server
          → taken.center ≡ sys.center
          → taken.balancer.backend ≡ sys.balancer.backend
          → ((e : Failure) → SomeUnreached k pairs e → BackendUnreached k sys.balancer.backend e)
          → Ends (SomeUnreached k pairs) (Forwarded names k is_open laws moves pairs taken) r
          → Ends (BackendUnreached k sys.balancer.backend) (IsSound names is_open) r
      sound pairs taken (ok sys') sv c b among f = Forwarded-IsSound pairs sys taken sys' v sv c b f
      sound pairs taken (err e) sv c b among f = among e f

  -- What the rounds of the proxy server's loops throw.
  abbrev Strays : List Resp → System S → Failure → Type 0
  Strays resps sys e = (e ≡ out_of_range) × ¬ AllKnown resps sys.proxy

  backends_end :
      (resps : List Resp) (sys : System S) (r : Result (ProxyServer × S))
      → IsSound names is_open sys
      → Goes (λ e. e ≡ out_of_range) (IsValid is_open) r
      → OnOk (HasCenter (record sys.proxy { center = sys.center })) r
      → (AllKnown resps sys.proxy → (c : ProxyServer × S) × (r ≡ ok c))
      → Ends (Strays resps sys) (IsSound names is_open) (
          r >>= λ record { 0 = p; 1 = s }.
          ok (record sys { center = p.center; proxy = p; kernel = s }))
  backends_end resps sys (ok (p, s)) v valid same_center goes = record {
    wired =
        moved-IsWired names sys (record sys { center = p.center; proxy = p; kernel = s }) v.wired
          refl (λ i t. ap (receivers i t) same_center);
    settled = v.settled;
    backed = v.backed;
    valid = valid;
  }
  backends_end resps sys (err e) v thrown same_center goes = (thrown, stray)
    where
      stray : ¬ AllKnown resps sys.proxy
      stray known = let (c, run) = goes known in cc

  backends-IsSound :
      (resps : List Resp) (sys : System S)
      → IsSound names is_open sys
      → Ends
          (Strays resps sys)
          (IsSound names is_open)
          (proxy_update names k (record { event_type = dmp_wait; body = wait_ctx resps }) sys)
  unfolding proxy_update
  backends-IsSound resps sys v =
      let p : ProxyServer = record sys.proxy { center = sys.center } in
      let valid : IsValid is_open p sys.kernel = record {
        paired = v.valid.paired;
        opened = v.valid.opened;
        turn = v.valid.turn;
      } in
      rw (update-wait k resps p sys.kernel) (
        backends_end resps sys (update_for_wait k resps p sys.kernel) v
          (update_for_wait-Goes k is_open laws moves resps p sys.kernel valid)
          (update_for_wait-HasCenter k resps p sys.kernel)
          (λ known.
            let (p', s', run', valid', left) =
              update_for_wait-Leaves k is_open laws moves resps p sys.kernel valid
                (known_in resps sys.proxy sys.center known) in
            ((p', s'), run')))

  module _ (dmp : ℕ → Demultiplex) (peer : ℕ → InetAddr) (write : ℕ → List ℕ → Option ℕ) where
    clients-IsSound :
        (resps : List Resp) (sys : System S)
        → AreDistinct resps
        → IsSound names is_open sys
        → Ends (λ e. ⊥) (IsSound names is_open) (client_step names k dmp peer write resps sys)
    clients-IsSound resps sys d v =
        let clients = handed_on sys.server.conn_map resps in
        let (sv, run', left, same_id) =
          wait_all-Hands dmp peer write resps sys.server (AllSteady-IsSettled sys.server v.settled)
            d in
        let (c, stepped, same_receivers) =
          client_step-Queues names k dmp peer write resps sys sv clients run' v.wired in
        let sys' : System S = record sys {
          center = c;
          server = sv;
          balancer = record sys.balancer { sock_queue = sys.balancer.sock_queue ++ (clients ∷ []) };
        } in
        rw stepped (record {
          wired = moved-IsWired names sys sys' v.wired same_id same_receivers;
          settled = λ fd conn e. v.settled fd conn (ground (arith, left fd, e));
          backed = v.backed;
          valid = v.valid;
        })

    accept_client-IsSound :
        (fd : ℕ) (sys : System S)
        → has_key fd sys.server.conn_map ≡ false
        → IsSound names is_open sys
        → Ends (λ e. ⊥) (IsSound names is_open) (accept_client names k dmp peer write fd sys)
    unfolding accept_client update
    accept_client-IsSound fd sys new v =
        let (c, run', steady) =
          update_for_register_lem dmp peer write fd default_events (some (dmp fd).id) dmp_register
            (record sys.server { center = sys.center }) new in
        let told = account (to_string (peer fd)) 0 sys.center in
        let sys' : System S = record sys {
          center = told;
          server = record sys.server { conn_map = emplace fd c sys.server.conn_map; center = told };
        } in
        rw run' (record {
          wired =
              moved-IsWired names sys sys' v.wired refl
                (λ i t. receivers-account i t (to_string (peer fd)) 0 sys.center);
          settled = emplace-AllSteady dmp peer write fd c sys.server.conn_map new steady v.settled;
          backed = v.backed;
          valid = v.valid;
        })

    step-IsSound :
        (e : Round) (sys : System S)
        → Fits names k dmp peer write e sys
        → IsSound names is_open sys
        → Ends
            (Throws names k dmp peer write e sys)
            (IsSound names is_open)
            (step names k dmp peer write e sys)
    unfolding step
    step-IsSound (of_acceptor fd) sys fits v = accept_client-IsSound fd sys fits v
    step-IsSound (of_clients resps) sys fits v = clients-IsSound resps sys fits v
    step-IsSound of_balancer sys fits v = balance-IsSound sys.balancer.sock_queue sys refl v
    step-IsSound (of_backends resps) sys fits v = backends-IsSound resps sys v

    -- The rounds of the acceptor, of the TCP server's loops, of the balancer and of the proxy server's
    -- loops, in any order, with new clients whose descriptors have no connection and clients' events of
    -- different descriptors, and with subscriptions as they should be, clients under their own
    -- descriptors with nothing left to send, a backend to choose, and maps of the proxy server that are
    -- inverse to each other with their backends open: all of this holds again after the last round,
    -- unless a round throws. Then that is the runtime_error by which the kernel refused a connection to
    -- one of the backends, in a round of the balancer, or `out_of_range`, in a round of the proxy
    -- server's loops with an event of a descriptor that is no backend's, or with two of one backend.
    pub run-IsSound :
        (es : List Round) (sys : System S)
        → AllFit names k dmp peer write es sys
        → IsSound names is_open sys
        → Ends
            (Halts names k dmp peer write es sys)
            (IsSound names is_open)
            (run names k dmp peer write es sys)
    unfolding run
    run-IsSound [] sys fits v = v
    run-IsSound (e ∷ es) sys (fits, later) v =
        Ends-then (Throws names k dmp peer write e sys) (Halts names k dmp peer write (e ∷ es) sys)
          (IsSound names is_open) (IsSound names is_open) (step names k dmp peer write e sys)
          (run names k dmp peer write es) (step-IsSound e sys fits v) (λ x f. inl f)
          (λ sys' now v'.
            Ends-weaken (Halts names k dmp peer write es sys')
              (Halts names k dmp peer write (e ∷ es) sys) (IsSound names is_open)
              (IsSound names is_open) (run names k dmp peer write es sys')
              (λ x f. inr (sys', now, f)) (λ s h. h) (run-IsSound es sys' (later sys' now) v'))
