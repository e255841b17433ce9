-- ===== src/Network/Server/Steady.antt =====
-- What holds of the connections of a `TcpServer` (src/network/tcp_server.cc) between its events.
use rproxy.Base.{
  ℕ, true, false, ◌&&◌, ◌≡◌, refl, sym, ap, ◌∙◌, Option, none, some, List, [], ◌∷◌, ◌++◌,
  if◌then◌else◌, arith, Result, ok, ==_cases, Option-cases, inl, inr, sub_size,
}
use mathlib.Core.Path.{subst}
use rproxy.Base.Eq.{nat_eq}
use rproxy.Base.Maps.{
  is_some, find, has_key, emplace, assign, erase, find-assign, find-emplace, find-erase,
}
use rproxy.Network.Addr.{InetAddr, to_string}
use rproxy.Pubsub.Center.{account}
use rproxy.Network.Buffer.{packet_size, readable_bytes}
use rproxy.Network.Buffer.Make.{make_idle}
use rproxy.Network.Demultiplex.{Demultiplex, Effect, closes, notifies}
use rproxy.Network.Channel.{new_channel, destroy_ends}
use rproxy.Network.Connection.{TcpConnection}
use rproxy.Pubsub.Event.{
  PubType, accepted, forward, balance, dmp_register, dmp_modify, dmp_delete, dmp_wait, Context,
  Body, register_ctx, modify_ctx, delete_ctx, wait_ctx, balance_ctx, Resp,
}
use rproxy.Network.Server.{
  TcpServer, add_effects, new_connection, end_connection, update_for_register, set_events,
  update_for_modify, remove_connection, update_for_delete, wait_all, update_for_wait, update,
}
use rproxy.Network.Server.Close.{find_assigned}
use rproxy.Network.Server.Wait.{IsSettled, round-Handles, hands_on}

-- A connection stands under its own descriptor, has nothing left to send, and has the context that it
-- was registered with, up to the events in it.
abbrev pub IsSteady : ℕ → TcpConnection → Type 0
IsSteady fd c =
    (c.sockfd ≡ fd)
    × (c.channel.socket ≡ fd)
    × (readable_bytes c.send_buffer ≡ 0)
    × (events : ℕ) × (d : Option ℕ) × (c.context.body ≡ register_ctx fd events d)

abbrev pub AllSteady : TcpServer → Type 0
AllSteady sv = (fd : ℕ) (c : TcpConnection) → find fd sv.conn_map ≡ some c → IsSteady fd c

pub AllSteady-IsSettled : (sv : TcpServer) → AllSteady sv → IsSettled sv
AllSteady-IsSettled sv v fd c e =
    let (own, about, idle, events, d, body) = v fd c e in (about, idle)

-- A context of the class that its event type says; a descriptor that is registered has no connection.
pub data Fits (sv : TcpServer) : PubType → Body → Type 0 where
  registers :
      (fd events : ℕ) (d : Option ℕ)
      → has_key fd sv.conn_map ≡ false
      → Fits sv dmp_register (register_ctx fd events d)
  modifies : (fd events : ℕ) → Fits sv dmp_modify (modify_ctx fd events)
  deletes : (fd : ℕ) → Fits sv dmp_delete (delete_ctx fd)
  waits : (resps : List Resp) → Fits sv dmp_wait (wait_ctx resps)
  accepts : (b : Body) → Fits sv accepted b
  balances : (b : Body) → Fits sv balance b
  forwards : (b : Body) → Fits sv forward b

-- A call succeeds, and leaves every connection steady.
abbrev pub Stays : Result TcpServer → Type 0
Stays r = (sv : TcpServer) × (r ≡ ok sv) × AllSteady sv

new_connection-IsSteady :
    (fd events : ℕ) (d : Option ℕ) (t : PubType)
    → let ctx : Context = record { event_type = t; body = register_ctx fd events d } in
      (c : TcpConnection) × (new_connection fd ctx ≡ ok c) × IsSteady fd c
unfolding new_connection new_channel
new_connection-IsSteady fd events d t =
    let (recv, received, r) = make_idle packet_size (omega arith) in
    let c : TcpConnection = record {
      sockfd = fd;
      channel = new_channel fd;
      recv_buffer = recv;
      send_buffer = recv;
      connected = true;
      context = record { event_type = t; body = register_ctx fd events d };
    } in
    (c, rw received refl, (refl, refl, r, events, d, refl))

end_connection_ends :
    (d : Demultiplex) (c : TcpConnection) → (es : List Effect) × (end_connection d c ≡ ok es)
unfolding end_connection
end_connection_ends d c =
    let (es, run) = destroy_ends d c.channel in (closes c.sockfd ∷ es, rw run refl)

module _ (dmp : ℕ → Demultiplex) (peer : ℕ → InetAddr) (write : ℕ → List ℕ → Option ℕ) where
  -- A descriptor without a connection gets one.
  pub update_for_register_lem :
      (fd events : ℕ) (d : Option ℕ) (t : PubType) (sv : TcpServer)
      → has_key fd sv.conn_map ≡ false
      → (c : TcpConnection) × (update_for_register dmp peer write
            (record { event_type = t; body = register_ctx fd events d })
            sv
          ≡ ok (record sv {
            conn_map = emplace fd c sv.conn_map;
            center = account (to_string (peer fd)) 0 sv.center;
          }))
        × IsSteady fd c
  unfolding update_for_register
  update_for_register_lem fd events d t sv new =
      let (c, made, steady) = new_connection-IsSteady fd events none t in
      let (es, ended) = end_connection_ends (dmp fd) c in (c, rw (made, ended, new) refl, steady)

  pub emplace-AllSteady :
      (fd : ℕ) (c : TcpConnection) (m : List (ℕ × TcpConnection))
      → has_key fd m ≡ false
      → IsSteady fd c
      → ((j : ℕ) (e : TcpConnection) → find j m ≡ some e → IsSteady j e)
      → (j : ℕ) (e : TcpConnection) → find j (emplace fd c m) ≡ some e
      → IsSteady j e
  emplace-AllSteady fd c m new steady v j e h = elim (==_cases fd j) [
    | inl here ↦
        let found : c ≡ e =
          ground (arith, find-emplace fd j c m, nat_eq.beq_iff fd j, here, new, h) in
        subst (λ n. IsSteady n e) here (subst (IsSteady fd) found steady)
    | inr there ↦ v j e (ground (arith, find-emplace fd j c m, nat_eq.beq_iff fd j, there, h))
  ]

  register-Stays :
      (fd events : ℕ) (d : Option ℕ) (t : PubType) (sv : TcpServer)
      → has_key fd sv.conn_map ≡ false
      → AllSteady sv
      → Stays (
          update_for_register dmp peer write
            (record { event_type = t; body = register_ctx fd events d })
            sv)
  register-Stays fd events d t sv new v =
      let (c, run, steady) = update_for_register_lem fd events d t sv new in
      let sv' = record sv {
        conn_map = emplace fd c sv.conn_map;
        center = account (to_string (peer fd)) 0 sv.center;
      } in
      (sv', run, emplace-AllSteady fd c sv.conn_map new steady v)

  set_events-Steady :
      (fd events : ℕ) (c : TcpConnection)
      → IsSteady fd c
      → (c' : TcpConnection) × (set_events dmp peer write fd events c ≡ ok c') × IsSteady fd c'
  unfolding set_events
  set_events-Steady fd events c (own, about, idle, old, d, body) =
      let c' : TcpConnection = record c {
        context = record c.context { body = register_ctx fd events d };
      } in
      (c', ground (arith, body), (own, about, idle, events, d, refl))

  modify-Stays :
      (fd events : ℕ) (t : PubType) (sv : TcpServer)
      → AllSteady sv
      → Stays (
          update_for_modify dmp peer write
            (record { event_type = t; body = modify_ctx fd events })
            sv)
  unfolding update_for_modify has_key
  modify-Stays fd events t sv v = elim (Option-cases (find fd sv.conn_map)) [
    | inl unknown ↦ (sv, rw (unknown, update_for_modify) refl, v)
    | inr (c, known) ↦
        let (c', changed, steady) = set_events-Steady fd events c (v fd c known) in
        (
          record sv { conn_map = assign fd c' sv.conn_map },
          rw (known, update_for_modify, changed) refl,
          λ j e h. elim (==_cases fd j) [
            | inl here ↦
                let both : some c' ≡ some e =
                  sym (find_assigned dmp peer write fd c' sv.conn_map (ap is_some known))
                  ∙ ap (λ n. find n (assign fd c' sv.conn_map)) here
                  ∙ h in
                let found : c' ≡ e = cc in
                subst (λ n. IsSteady n e) here (subst (IsSteady fd) found steady)
            | inr there ↦
                v j e
                  (ground (arith, find-assign fd j c' sv.conn_map, nat_eq.beq_iff fd j, there, h))
          ],
        )
  ]

  remove-Stays :
      (fd : ℕ) (sv : TcpServer) → AllSteady sv → Stays (remove_connection dmp peer write fd sv)
  unfolding remove_connection
  remove-Stays fd sv v = elim (Option-cases (find fd sv.conn_map)) [
    | inl unknown ↦ (sv, rw (unknown, remove_connection) refl, v)
    | inr (c, known) ↦
        let (es, run) = end_connection_ends (dmp fd) c in
        let sv' = record sv {
          total_conn = sub_size sv.total_conn 1;
          conn_map = erase fd sv.conn_map;
          effects = sv.effects ++ es;
        } in
        (
          sv',
          rw (known, remove_connection, run) refl,
          λ j e h. v j e (ground (arith, find-erase fd j sv.conn_map, h)),
        )
  ]

  wait_all-Stays :
      (resps : List Resp) (sv : TcpServer)
      → AllSteady sv
      → (sv' : TcpServer) × (sockes : List ℕ) × (wait_all dmp peer write resps sv
          ≡ ok (sv', sockes))
        × AllSteady sv'
  unfolding wait_all
  wait_all-Stays [] sv v = (sv, [], refl, v)
  wait_all-Stays (r ∷ rest) sv v =
      let (sv₁, run, left, heard, same_id) =
        round-Handles dmp peer write r sv (AllSteady-IsSettled sv v) in
      let (sv₂, sockes, go, v₂) =
        wait_all-Stays rest sv₁ (λ j c e. v j c (ground (arith, left j, e))) in
      (
        sv₂,
        (if has_key r.fd sv.conn_map && hands_on r then r.fd ∷ sockes else sockes),
        rw (run, go) refl,
        v₂,
      )

  update_of :
      (t : PubType) (b : Body) (sv : TcpServer)
      → Fits sv t b
      → AllSteady sv
      → Stays (update dmp peer write (record { event_type = t; body = b }) sv)
  unfolding update update_for_delete update_for_wait
  update_of _ _ sv (registers fd events d new) v = register-Stays fd events d dmp_register sv new v
  update_of _ _ sv (modifies fd events) v = modify-Stays fd events dmp_modify sv v
  update_of _ _ sv (deletes fd) v = remove-Stays fd sv v
  update_of _ _ sv (waits resps) v =
      let (sv', sockes, run, v') = wait_all-Stays resps sv v in
      let told =
        notifies sv'.id balance (record { event_type = balance; body = balance_ctx sockes }) in
      (add_effects (told ∷ []) sv', rw run refl, v')
  update_of _ _ sv (accepts b) v = (sv, refl, v)
  update_of _ _ sv (balances b) v = (sv, refl, v)
  update_of _ _ sv (forwards b) v = (sv, refl, v)

  -- `update` of a TCP server whose connections each stand under their own descriptor, have nothing
  -- left to send and keep the context that they were registered with, up to its events; for a context
  -- of the class that its event type says, and where it registers a descriptor, for one without a
  -- connection: it succeeds, and the same holds of the connections afterwards.
  pub update-Stays :
      (ctx : Context) (sv : TcpServer)
      → Fits sv ctx.event_type ctx.body
      → AllSteady sv
      → Stays (update dmp peer write ctx sv)
  update-Stays ctx sv fits v = update_of ctx.event_type ctx.body sv fits v
