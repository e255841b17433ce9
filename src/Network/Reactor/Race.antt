-- ===== src/Network/Reactor/Race.antt =====
-- A connection of a `TcpServer` (src/network/tcp_server.cc) that is closed while another thread
-- accepts.
use rproxy.Base.{
  ℕ, suc, ◌+◌, ◌≤◌, true, false, ◌≡◌, refl, ap, Option, none, some, List, [], ◌∷◌, ◌++◌, arith,
  Result, ok, sub_size,
}
use rproxy.Base.Eq.{nat_eq}
use rproxy.Base.Maps.{is_some, find, has_key, emplace, assign, erase, find-emplace, find-erase}
use rproxy.Network.Addr.{InetAddr, to_string}
use rproxy.Network.Demultiplex.{
  Demultiplex, Effect, epoll_add, epoll_del, closes, tell, default_events,
}
use rproxy.Network.Channel.{destroy_ends}
use rproxy.Network.Connection.{TcpConnection}
use rproxy.Network.Connection.Drain.{disconnect_lem}
use rproxy.Network.Server.{
  TcpServer, add_effects, end_connection, update_for_register, remove_connection, update_for_delete,
  dispatch, close_connection,
}
use rproxy.Network.Server.Close.{find_assigned, remove_connection_left}
use rproxy.Network.Server.Steady.{update_for_register_lem}
use rproxy.Network.Reactor.Heard.{ends_with, total, total-append}
use rproxy.Pubsub.Center.{account}
use rproxy.Pubsub.Event.{dmp_delete, dmp_register, delete_ctx, register_ctx}

-- `disconnect` has marked the connection, and its channel has left.
abbrev pub marked : ℕ → TcpConnection → TcpServer → TcpServer
marked fd c sv = record sv {
  conn_map =
      assign fd (record c { connected = false; channel = record c.channel { left = true } })
        sv.conn_map;
}

module _ (dmp : ℕ → Demultiplex) (peer : ℕ → InetAddr) (write : ℕ → List ℕ → Option ℕ) where
  -- The notification of `leave`, and what `updateForWait` does after it.
  abbrev pub first_part : ℕ → TcpConnection → TcpServer → Result TcpServer
  first_part fd c sv =
      update_for_delete dmp peer write (record { event_type = dmp_delete; body = delete_ctx fd })
        (marked fd c sv)

  abbrev pub last_part : ℕ → TcpServer → Result TcpServer
  last_part fd sv =
      remove_connection dmp peer write fd (add_effects (epoll_del (dmp fd).dmpfd fd ∷ []) sv)

  -- Another thread accepts a client with the descriptor.
  abbrev pub accept_part : ℕ → TcpServer → Result TcpServer
  accept_part fd sv =
      update_for_register dmp peer write
        (record {
          event_type = dmp_register;
          body = register_ctx fd default_events (some (dmp fd).id);
        })
        sv

  -- The two parts are the call; and where a client is accepted between them, the second part ends its
  -- connection, and the descriptor has been closed at least twice.
  abbrev pub EndsNext : ℕ → TcpConnection → TcpServer → Type 0
  EndsNext fd c sv =
      (sv₁ : TcpServer) × (sv₂ : TcpServer) × (sv₃ : TcpServer) × (first_part fd c sv ≡ ok sv₁)
      × (close_connection dmp peer write fd c sv ≡ last_part fd sv₁)
      × (accept_part fd sv₁ ≡ ok sv₂)
      × (has_key fd sv₂.conn_map ≡ true)
      × (last_part fd (add_effects (epoll_add (dmp fd).dmpfd fd default_events ∷ []) sv₂) ≡ ok sv₃)
      × (find fd sv₃.conn_map ≡ none)
      × (2 + total (ends_with fd) sv.effects ≤ total (ends_with fd) sv₃.effects)

  -- A connection that is there ends when it is removed.
  remove_known :
      (fd : ℕ) (c : TcpConnection) (sv : TcpServer)
      → find fd sv.conn_map ≡ some c
      → c.sockfd ≡ fd
      → (es : List Effect) × (remove_connection dmp peer write fd sv
          ≡ ok (record sv {
            total_conn = sub_size sv.total_conn 1;
            conn_map = erase fd sv.conn_map;
            effects = sv.effects ++ (closes fd ∷ es);
          }))
  unfolding remove_connection end_connection
  remove_known fd c sv known own =
      let (es, run) = destroy_ends (dmp fd) c.channel in
      (es, rw (remove_connection, known, run, own) refl)

  closes_once :
      (fd n : ℕ) (rest : List Effect)
      → n ≡ fd
      → total (ends_with fd) (closes n ∷ rest) ≡ suc (total (ends_with fd) rest)
  unfolding total
  closes_once fd n rest h = ground (arith, nat_eq.beq_iff n fd)

  split_lem :
      (c : TcpConnection) (sv sv₁ : TcpServer)
      → (dmp c.channel.socket).notify ≡ true
      → first_part c.channel.socket c sv ≡ ok sv₁
      → close_connection dmp peer write c.channel.socket c sv ≡ last_part c.channel.socket sv₁
  unfolding close_connection dispatch tell
  split_lem c sv sv₁ told first = rw (disconnect_lem (dmp c.channel.socket) c, told, first) refl

  -- A connection under its own descriptor hangs up, and its demultiplexer notifies. Its call is two
  -- parts: the notification, which ends the connection and so closes the descriptor, and then the
  -- request that the epoll instance drops it and a second removal. Where another thread accepts a
  -- client with the same number between the two, for the same demultiplexer, the second part ends the
  -- connection of that client: it is gone from the map, and the number has been closed at least twice.
  pub close_connection-EndsNext :
      (c : TcpConnection) (sv : TcpServer)
      → find c.channel.socket sv.conn_map ≡ some c
      → c.sockfd ≡ c.channel.socket
      → (dmp c.channel.socket).notify ≡ true
      → EndsNext c.channel.socket c sv
  unfolding update_for_delete total has_key
  close_connection-EndsNext c sv known own told =
      let (e, accepted, steady) =
        update_for_register_lem dmp peer write fd default_events (some (dmp fd).id) dmp_register sv₁
          (ap is_some gone) in
      let sv₂ : TcpServer = record sv₁ {
        conn_map = emplace fd e sv₁.conn_map;
        center = account (to_string (peer fd)) 0 sv₁.center;
      } in
      let next : find fd sv₂.conn_map ≡ some e =
        ground (arith, find-emplace fd fd e sv₁.conn_map, nat_eq.beq_iff fd fd, gone) in
      let added = add_effects (epoll_add (dmp fd).dmpfd fd default_events ∷ []) sv₂ in
      let dropped = add_effects (epoll_del (dmp fd).dmpfd fd ∷ []) added in
      let (es, removed) = remove_known fd e dropped next steady.0 in
      (
        sv₁,
        sv₂,
        record dropped {
          total_conn = sub_size dropped.total_conn 1;
          conn_map = erase fd dropped.conn_map;
          effects = dropped.effects ++ (closes fd ∷ es);
        },
        first,
        split_lem c sv sv₁ told first,
        accepted,
        ap is_some next,
        removed,
        ground (arith, nat_eq.beq_iff fd fd, find-erase fd fd dropped.conn_map),
        counts es (epoll_add (dmp fd).dmpfd fd default_events) (epoll_del (dmp fd).dmpfd fd),
      )
    where
      fd : ℕ
      fd = c.channel.socket

      sv₁ : TcpServer
      sv₁ = record (marked fd c sv) {
        total_conn = sub_size sv.total_conn 1;
        conn_map = erase fd (marked fd c sv).conn_map;
        effects = sv.effects ++ (closes c.sockfd ∷ []);
      }

      first : first_part fd c sv ≡ ok sv₁
      first =
          remove_connection_left dmp peer write fd
            (record c { connected = false; channel = record c.channel { left = true } })
            (marked fd c sv) (find_assigned dmp peer write fd _ sv.conn_map (ap is_some known)) refl

      gone : find fd sv₁.conn_map ≡ none
      gone = ground (arith, nat_eq.beq_iff fd fd, find-erase fd fd (marked fd c sv).conn_map)

      -- What is requested in between does not matter.
      counts :
          (es : List Effect) (added dropped : Effect)
          → 2 + total (ends_with fd) sv.effects
            ≤ total (ends_with fd) (
                ((sv.effects ++ (closes c.sockfd ∷ [])) ++ (added ∷ []) ++ (dropped ∷ []))
                ++ (closes fd ∷ es))
      counts es added dropped =
          let before = sv.effects ++ (closes c.sockfd ∷ []) in
          omega (
            arith,
            total-append (ends_with fd) ((before ++ (added ∷ [])) ++ (dropped ∷ []))
                (closes fd ∷ es),
            total-append (ends_with fd) (before ++ (added ∷ [])) (dropped ∷ []),
            total-append (ends_with fd) before (added ∷ []),
            total-append (ends_with fd) sv.effects (closes c.sockfd ∷ []),
            closes_once fd c.sockfd [] own,
            closes_once fd fd es refl,
          )
