-- ===== src/Network/Reactor/Rounds.antt =====
-- What the handlers of a `TcpServer` (src/network/tcp_server.cc) leave of what is heard of its
-- connections.
use rproxy.Base.{
  ℕ, Bool, true, false, not, ◌&&◌, ◌||◌, ◌≡◌, refl, sym, ap, ◌∙◌, Option, none, some, List, [], ◌∷◌,
  ◌++◌, append-nil, if◌then◌else◌, arith, ok, Option-cases, Bool-cases, inl, inr,
}
use rproxy.Base.Eq.{nat_eq}
use rproxy.Base.Maps.{find, has_key, emplace, find-emplace}
use rproxy.Network.Addr.{InetAddr, to_string}
use rproxy.Pubsub.Center.{account}
use rproxy.Pubsub.Event.{balance, dmp_register, Context, register_ctx, balance_ctx, Resp}
use rproxy.Network.Demultiplex.{
  Demultiplex, Effect, notifies, epoll_add, default_events, demultiplex_register, demultiplex_wait,
  tell,
}
use rproxy.Network.Connection.{TcpConnection}
use rproxy.Network.Server.{TcpServer, add_effects, wait_all, update_for_wait, update}
use rproxy.Network.Server.Close.{ending}
use rproxy.Network.Server.Wait.{ends, ending_of, hands_on, round-Handles}
use rproxy.Network.Server.Steady.{
  IsSteady, AllSteady, AllSteady-IsSettled, update_for_register_lem, emplace-AllSteady,
}
use rproxy.Network.Reactor.{owned, deliver, run}
use rproxy.Network.Reactor.Heard.{
  watched_from, watched_from-append, adds, ends_with, total, total-append,
}
use rproxy.Network.Reactor.Ends.{IsHeard, IsHeard-still, IsHeard-ended}

pub record IsTracked (owner : ℕ → Demultiplex) (sv : TcpServer) : Type 0 where
  pub steady : AllSteady sv
  pub heard : (fd : ℕ) → IsHeard owner sv fd

module _ (peer : ℕ → InetAddr) (write : ℕ → List ℕ → Option ℕ) where
  -- One round of the loop of `updateForWait`.
  round-IsTracked :
      (owner : ℕ → Demultiplex) (r : Resp) (sv sv' : TcpServer)
      → IsTracked owner sv
      → ((j : ℕ) → find j sv'.conn_map ≡ (if ends r j then none else find j sv.conn_map))
      → sv'.effects ≡ sv.effects ++ ending_of owner peer write r (find r.fd sv.conn_map)
      → IsTracked owner sv'
  unfolding has_key
  round-IsTracked owner r sv sv' v left es = record {
    steady = λ j c e. v.steady j c (ground (arith, left j, e));
    heard = elim (Option-cases (find r.fd sv.conn_map)) [
      | inl unknown ↦ λ j.
          IsHeard-still owner sv sv' j
            (es
              ∙ ap (λ o. sv.effects ++ ending_of owner peer write r o) unknown
              ∙ append-nil sv.effects)
            (ground (arith, left j, nat_eq.beq_iff r.fd j, unknown)) (v.heard j)
      | inr (c, known) ↦ elim (Bool-cases (ends r r.fd)) [
        | inr stays ↦ λ j.
            IsHeard-still owner sv sv' j
              (es
                ∙ ap (λ o. sv.effects ++ ending_of owner peer write r o) known
                ∙ ap (λ b. sv.effects ++ (if b then ending (owner r.fd) c else [])) stays
                ∙ append-nil sv.effects)
              (ground (arith, left j, nat_eq.beq_iff r.fd j, stays, nat_eq.beq_iff r.fd r.fd))
              (v.heard j)
        | inl gone ↦ λ j.
            IsHeard-ended owner c r.fd sv sv' j known (v.steady r.fd c known).0
              (v.steady r.fd c known).1
              (es
                ∙ ap (λ o. sv.effects ++ ending_of owner peer write r o) known
                ∙ ap (λ b. sv.effects ++ (if b then ending (owner r.fd) c else [])) gone)
              (ground (arith, left j, nat_eq.beq_iff r.fd j, gone, nat_eq.beq_iff r.fd r.fd))
              (v.heard j)
      ]
    ];
  }

  wait_all-IsTracked :
      (owner : ℕ → Demultiplex) (resps : List Resp) (sv : TcpServer)
      → IsTracked owner sv
      → (sv' : TcpServer) × (sockes : List ℕ) × (wait_all owner peer write resps sv
          ≡ ok (sv', sockes))
        × IsTracked owner sv'
  unfolding wait_all
  wait_all-IsTracked owner [] sv v = (sv, [], refl, v)
  wait_all-IsTracked owner (r ∷ rest) sv v =
      let (sv₁, run, left, es, same_id) =
        round-Handles owner peer write r sv (AllSteady-IsSettled sv v.steady) in
      let (sv₂, sockes, go, v₂) =
        wait_all-IsTracked owner rest sv₁ (round-IsTracked owner r sv sv₁ v left es) in
      (
        sv₂,
        (if has_key r.fd sv.conn_map && hands_on r then r.fd ∷ sockes else sockes),
        rw (run, go) refl,
        v₂,
      )

  -- What is only told to others does not change what is heard of a descriptor.
  told-IsTracked :
      (owner : ℕ → Demultiplex) (sv : TcpServer) (id : ℕ) (ctx : Context)
      → IsTracked owner sv
      → IsTracked owner (add_effects (notifies id balance ctx ∷ []) sv)
  unfolding watched_from total
  told-IsTracked owner sv id ctx v = record {
    steady = v.steady;
    heard = λ fd. record {
      watched = λ dmpfd.
          watched_from-append dmpfd fd false sv.effects (notifies id balance ctx ∷ [])
          ∙ (v.heard fd).watched dmpfd;
      closed = omega (
        arith,
        (v.heard fd).closed,
        total-append (adds fd) sv.effects (notifies id balance ctx ∷ []),
        total-append (ends_with fd) sv.effects (notifies id balance ctx ∷ []),
      );
    };
  }

  pub reports-IsTracked :
      (owner : ℕ → Demultiplex) (d : Demultiplex) (resps : List Resp) (sv : TcpServer)
      → IsTracked owner sv
      → (sv' : TcpServer) × (deliver peer write owner (demultiplex_wait resps true d) sv ≡ ok sv')
        × IsTracked owner sv'
  unfolding deliver demultiplex_wait tell update update_for_wait
  reports-IsTracked owner d [] sv v = (sv, refl, v)
  reports-IsTracked owner d (r ∷ rest) sv v =
      let (sv', sockes, run, v') = wait_all-IsTracked owner (r ∷ rest) sv v in
      let ctx : Context = record { event_type = balance; body = balance_ctx sockes } in
      (
        add_effects (notifies sv'.id balance ctx ∷ []) sv',
        rw (always d.notify, run) refl,
        told-IsTracked owner sv' sv'.id ctx v',
      )
    where
      always : (b : Bool) → b || (not b && true) ≡ true
      always b = ground arith

  -- A descriptor that gets a connection and is added to an epoll instance.
  added-IsTracked :
      (owner : ℕ → Demultiplex) (d : Demultiplex) (fd : ℕ) (c : TcpConnection) (sv sv' : TcpServer)
      → has_key fd sv.conn_map ≡ false
      → IsSteady fd c
      → sv'.conn_map ≡ emplace fd c sv.conn_map
      → sv'.effects ≡ sv.effects ++ (epoll_add d.dmpfd fd default_events ∷ [])
      → IsTracked owner sv
      → IsTracked (owned fd d owner) sv'
  unfolding watched_from total owned has_key
  added-IsTracked owner d fd c sv sv' new steady m es v = record {
    steady = λ j e h.
        emplace-AllSteady owner peer write fd c sv.conn_map new steady v.steady j e
          (ap (find j) (sym m) ∙ h);
    heard = λ j. record {
      watched = λ dmpfd.
          rw (es, watched_from-append dmpfd j false sv.effects added)
            (ground (
              arith,
              (v.heard j).watched dmpfd,
              (v.heard fd).watched dmpfd,
              nat_eq.beq_iff fd j,
              find-emplace fd j c sv.conn_map,
              m,
              new,
            ));
      closed =
          rw
            (
              es,
              total-append (adds j) sv.effects added,
              total-append (ends_with j) sv.effects added,
            )
            (ground (
              arith,
              (v.heard j).closed,
              nat_eq.beq_iff fd j,
              find-emplace fd j c sv.conn_map,
              m,
              new,
            ));
    };
  }
    where
      added : List Effect
      added = epoll_add d.dmpfd fd default_events ∷ []

  demultiplex_register_lem :
      (fd : ℕ) (d : Demultiplex)
      → d.notify ≡ true
      → demultiplex_register fd false d
        ≡ notifies d.id dmp_register (record {
          event_type = dmp_register;
          body = register_ctx fd default_events (some d.id);
        })
          ∷ epoll_add d.dmpfd fd default_events
          ∷ []
  unfolding demultiplex_register tell
  demultiplex_register_lem fd d told = rw told refl

  pub accepts-IsTracked :
      (owner : ℕ → Demultiplex) (d : Demultiplex) (fd : ℕ) (sv : TcpServer)
      → has_key fd sv.conn_map ≡ false
      → d.notify ≡ true
      → IsTracked owner sv
      → (sv' : TcpServer) × (deliver peer write
            (owned fd d owner)
            (demultiplex_register fd false d)
            sv
          ≡ ok sv')
        × IsTracked (owned fd d owner) sv'
  unfolding deliver update
  accepts-IsTracked owner d fd sv new told v =
      let (c, run, steady) =
        update_for_register_lem (owned fd d owner) peer write fd default_events (some d.id)
          dmp_register sv new in
      let registered = record sv {
        conn_map = emplace fd c sv.conn_map;
        center = account (to_string (peer fd)) 0 sv.center;
      } in
      let sv' = add_effects (epoll_add d.dmpfd fd default_events ∷ []) registered in
      (
        sv',
        ap (λ es. deliver peer write (owned fd d owner) es sv) (demultiplex_register_lem fd d told)
            ∙ rw run refl,
        added-IsTracked owner d fd c sv sv' new steady refl refl v,
      )
