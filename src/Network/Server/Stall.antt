-- ===== src/Network/Server/Stall.antt =====
-- What becomes of bytes that `TcpConnection::send` of src/network/tcp_connection.cc could not send at
-- once, as src/network/tcp_server.cc handles the notification.
use rproxy.Base.{
  ℕ, true, ◌+◌, ◌≤◌, ◌<◌, ◌≡◌, refl, Option, some, List, [], ◌∷◌, length, take, arith, Result, ok,
}
use rproxy.Base.Eq.{nat_eq}
use rproxy.Base.Maps.{find, has_key, assign, find-assign}
use rproxy.Network.Addr.{InetAddr}
use rproxy.Network.Buffer.{Buffer, max_size}
use rproxy.Network.Buffer.Invariant.{IsValid, contents}
use rproxy.Network.Demultiplex.{epoll_mod, Demultiplex, Effect, tell, writable, default_events}
use rproxy.Network.Channel.{watches}
use rproxy.Network.Connection.{TcpConnection, took, send, send_in_loop}
use rproxy.Network.Connection.Send.{IsOpen, send_partial}
use rproxy.Network.Connection.Drain.{send_in_loop_unread}
use rproxy.Pubsub.Event.{register_ctx}
use rproxy.Network.Server.{TcpServer, add_effects, set_events, update_for_modify, dispatch}

-- The connection `fd` keeps its bytes, and no later call of `sendInLoop` sends any, whatever the
-- kernel would take.
abbrev pub Stalls : ℕ → Buffer → (ℕ → Demultiplex) → Result TcpServer → Type 0
Stalls fd b dmp r =
    (sv' : TcpServer) × (c : TcpConnection) × (r ≡ ok sv')
    × (find fd sv'.conn_map ≡ some c)
    × (c.send_buffer ≡ b)
    × ((answer : List ℕ → Option ℕ) → send_in_loop answer (dmp fd) c ≡ ok (c, [], []))

module _ (dmp : ℕ → Demultiplex) (peer : ℕ → InetAddr) (write : ℕ → List ℕ → Option ℕ) where
  -- Told that the connection is watched for writing alone, the server writes that into its context.
  watched-Stalls :
      (fd : ℕ) (sv : TcpServer) (c : TcpConnection) (old : ℕ) (own : Option ℕ)
      → IsValid c.send_buffer
      → (dmp fd).notify ≡ true
      → c.context.body ≡ register_ctx fd old own
      → find fd sv.conn_map ≡ some c
      → Stalls fd c.send_buffer dmp (dispatch dmp peer write (watches (dmp fd) fd writable) sv)
  unfolding dispatch update_for_modify set_events tell has_key
  watched-Stalls fd sv c old own v told body known = (
    add_effects (epoll_mod (dmp fd).dmpfd fd writable ∷ [])
        (record sv { conn_map = assign fd c' sv.conn_map }),
    c',
    ground (arith, told, body, known, nat_eq.beq_iff fd fd),
    ground (arith, nat_eq.beq_iff fd fd, find-assign fd fd c' sv.conn_map, known),
    refl,
    λ answer. send_in_loop_unread answer (dmp fd) c' writable fd own refl refl v,
  )
    where
      c' : TcpConnection
      c' = record c { context = record c.context { body = register_ctx fd writable own } }

  -- `send` on a connection of the server that is watched as new ones are, where the kernel does not
  -- take all the bytes: some bytes wait in the send buffer, and the server, told of the change, leaves
  -- the connection so that no call of `sendInLoop` sends any of them, whatever the kernel would take
  -- then.
  pub send-Stalls :
      (answer : List ℕ → Option ℕ) (src : List ℕ) (len : ℕ) (sv : TcpServer) (c : TcpConnection)
      (own : Option ℕ)
      → find c.channel.socket sv.conn_map ≡ some c
      → (dmp c.channel.socket).notify ≡ true
      → c.connected ≡ true
      → IsValid c.send_buffer
      → c.context.body ≡ register_ctx c.channel.socket default_events own
      → len ≤ length src
      → c.send_buffer.writer + len ≤ max_size
      → took (answer (take len src)) < len
      → let fd = c.channel.socket in
        (b : Buffer) × (sent : List ℕ) × (effects : List Effect) × (send answer src len (dmp fd) c
          ≡ ok (record c { send_buffer = b }, sent, effects))
        × (0 < length (contents b))
        × Stalls fd b dmp (
            dispatch dmp peer write effects
              (record sv { conn_map = assign fd (record c { send_buffer = b }) sv.conn_map }))
  unfolding has_key
  send-Stalls answer src len sv c own known told on v body h fits part =
      let fd = c.channel.socket in
      let o : IsOpen c default_events = record {
        open_state = on;
        buffer = v;
        watched = (fd, own, body);
      } in
      let (b, sent, run, valid, waits) = send_partial answer src len (dmp fd) c o h fits part in
      let c' : TcpConnection = record c { send_buffer = b } in
      (
        b,
        sent,
        watches (dmp fd) fd writable,
        run,
        waits,
        watched-Stalls fd (record sv { conn_map = assign fd c' sv.conn_map }) c' default_events own
            valid told body
            (ground (arith, nat_eq.beq_iff fd fd, find-assign fd fd c' sv.conn_map, known)),
      )
