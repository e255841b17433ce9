-- ===== src/Network/Server.antt =====
-- src/network/tcp_server.hpp and tcp_server.cc: `TcpServer`, as it is built without Debug. It
-- subscribes to each of its demultiplexers, so that what a connection's calls notify reaches `update`
-- at once.
pub mod Close
pub mod Stall
pub mod Wait
pub mod Steady
pub mod Clients
mod Tests
use rproxy.Base.{
  ℕ, Bool, true, false, not, ◌&&◌, Option, none, some, List, [], ◌∷◌, ◌++◌, sub_size, if◌then◌else◌,
  Result, ok, err, ◌>>=◌, undefined,
}
use rproxy.Base.Eq.{nat_eq}
use rproxy.Base.Maps.{find, has_key, emplace, assign, erase}
use rproxy.Network.Addr.{InetAddr, to_string}
use rproxy.Network.Buffer.{packet_size, make}
use rproxy.Network.Demultiplex.{
  Demultiplex, Effect, notifies, closes, readable, writable, closable, meets,
}
use rproxy.Network.Channel.{new_channel, destroy}
use rproxy.Network.Connection.{TcpConnection, disconnect, send_in_loop}
use rproxy.Pubsub.Event.{
  dmp_register, dmp_modify, dmp_delete, dmp_wait, balance, Context, register_ctx, modify_ctx,
  delete_ctx, wait_ctx, balance_ctx, Resp,
}
use rproxy.Pubsub.Center.{Center, account}

-- `effects` is what was asked of the kernel and of the center so far.
pub record TcpServer : Type 0 where
  pub id : ℕ
  pub conn_map : List (ℕ × TcpConnection)
  pub total_conn : ℕ
  pub center : Center
  pub effects : List Effect

abbrev pub add_effects : List Effect → TcpServer → TcpServer
add_effects es sv = record sv { effects = sv.effects ++ es }

-- `TcpConnection(channel, ctx)`, where `peer` leaves no trace.
pub new_connection : ℕ → Context → Result TcpConnection
new_connection fd ctx = do
  recv ← make packet_size
  send ← make packet_size
  ok (record {
    sockfd = fd;
    channel = new_channel fd;
    recv_buffer = recv;
    send_buffer = send;
    connected = true;
    context = ctx;
  })

-- A connection ends: `~TcpConnection`, and then `~Channel`.
unfoldable pub end_connection : Demultiplex → TcpConnection → Result (List Effect)
end_connection d c = do left ← destroy d c.channel; ok (closes c.sockfd ∷ left)

-- The network: the demultiplexer of each descriptor's channel, its peer, and the answers of `write`.
module _ (dmp : ℕ → Demultiplex) (peer : ℕ → InetAddr) (write : ℕ → List ℕ → Option ℕ) where
  -- `updateForRegister`. Where the descriptor has a connection, the new one ends at once with the lock
  -- held; its channel notifies the server, which then takes the lock a second time.
  pub update_for_register : Context → TcpServer → Result TcpServer
  update_for_register ctx sv = elim ctx.body [
    | register_ctx fd events d ↦ (do
      conn ← new_connection fd (record ctx { body = register_ctx fd events none })
      left ← end_connection (dmp fd) conn
      let sv' = record sv {
        conn_map = emplace fd conn sv.conn_map;
        center = account (to_string (peer fd)) 0 sv.center;
      }
      (if has_key fd sv.conn_map
          then (if (dmp fd).notify then err undefined else ok (add_effects left sv'))
          else ok sv'))
    | _ ↦ err undefined
  ]

  -- `conn_ctx->events_ = dmp_ctx->events_`, unless the descriptors differ.
  pub set_events : ℕ → ℕ → TcpConnection → Result TcpConnection
  set_events fd events c = elim c.context.body [
    | register_ctx fd' old d ↦
        let ctx = record c.context { body = register_ctx fd' events d } in
        ok (if nat_eq.beq fd fd' then record c { context = ctx } else c)
    | _ ↦ err undefined
  ]

  -- `updateForModify`
  pub update_for_modify : Context → TcpServer → Result TcpServer
  update_for_modify ctx sv = elim ctx.body [
    | modify_ctx fd events ↦ elim (find fd sv.conn_map) [
      | none ↦ ok sv
      | some c ↦
          set_events fd events c >>= λ c'. ok (record sv { conn_map = assign fd c' sv.conn_map })
    ]
    | _ ↦ err undefined
  ]

  -- `removeConnection`. The connection ends when it is erased: a channel that has not left does so
  -- then.
  unfoldable pub remove_connection : ℕ → TcpServer → Result TcpServer
  remove_connection fd sv = elim (find fd sv.conn_map) [
    | none ↦ ok sv
    | some c ↦ end_connection (dmp fd) c >>= λ left. ok (record sv {
      total_conn = sub_size sv.total_conn 1;
      conn_map = erase fd sv.conn_map;
      effects = sv.effects ++ left;
    })
  ]

  -- `updateForDelete`
  unfoldable pub update_for_delete : Context → TcpServer → Result TcpServer
  update_for_delete ctx sv = elim ctx.body [
    | delete_ctx fd ↦ remove_connection fd sv
    | _ ↦ err undefined
  ]

  -- The effects of a connection's call, those that notify the server as it handles them.
  unfoldable pub dispatch : List Effect → TcpServer → Result TcpServer
  dispatch [] sv = ok sv
  dispatch (notifies id dmp_modify ctx ∷ es) sv =
      update_for_modify ctx sv >>= λ sv'. dispatch es sv'
  dispatch (notifies id dmp_delete ctx ∷ es) sv =
      update_for_delete ctx sv >>= λ sv'. dispatch es sv'
  dispatch (e ∷ es) sv = dispatch es (add_effects (e ∷ []) sv)

  -- `tcp_conn->sendInLoop(...)` and `tcp_conn->disconnect()`, in the map.
  pub send_rest : ℕ → TcpConnection → TcpServer → Result TcpServer
  send_rest fd c sv = do
    (c', sent, es) ← send_in_loop (write fd) (dmp fd) c
    dispatch es (record sv { conn_map = assign fd c' sv.conn_map })

  unfoldable pub close_connection : ℕ → TcpConnection → TcpServer → Result TcpServer
  close_connection fd c sv = do
    (c', sent, es) ← disconnect (dmp fd) c
    sv' ← dispatch es (record sv { conn_map = assign fd c' sv.conn_map })
    remove_connection fd sv'

  -- The events of a connection: what it does to the server, and whether the socket is handed on.
  pub wait_one : Resp → TcpConnection → TcpServer → Result (TcpServer × Bool)
  wait_one r c sv =
      let sent = send_rest r.fd c sv >>= λ sv'. ok (sv', false) in
      let closed = close_connection r.fd c sv >>= λ sv'. ok (sv', false) in
      if meets r.events readable && not (meets r.events closable)
      then ok (sv, true)
      else if meets r.events writable
      then sent
      else if meets r.events closable
      then closed
      else ok (sv, false)

  -- The loop of `updateForWait`: the server, and the sockets that are handed on.
  unfoldable pub wait_all : List Resp → TcpServer → Result (TcpServer × List ℕ)
  wait_all [] sv = ok (sv, [])
  wait_all (r ∷ rest) sv = do
    (sv', handed) ← elim (find r.fd sv.conn_map) [
      | none ↦ ok (sv, false)
      | some c ↦ wait_one r c sv
    ]
    (sv'', sockes) ← wait_all rest sv'
    ok (sv'', if handed then r.fd ∷ sockes else sockes)

  -- `updateForWait`, which ends with `notify`.
  unfoldable pub update_for_wait : Context → TcpServer → Result TcpServer
  update_for_wait ctx sv = elim ctx.body [
    | wait_ctx resps ↦ wait_all resps sv >>= λ record { 0 = sv'; 1 = sockes }. ok (
        add_effects
          (notifies sv'.id balance (record { event_type = balance; body = balance_ctx sockes })
            ∷ [])
          sv')
    | _ ↦ err undefined
  ]

  -- `update`
  unfoldable pub update : Context → TcpServer → Result TcpServer
  update ctx sv = elim ctx.event_type [
    | dmp_register ↦ update_for_register ctx sv
    | dmp_modify ↦ update_for_modify ctx sv
    | dmp_delete ↦ update_for_delete ctx sv
    | dmp_wait ↦ update_for_wait ctx sv
    | _ ↦ ok sv
  ]
