-- ===== src/Network/Server/Close.antt =====
-- How a connection ends in src/network/tcp_server.cc.
use rproxy.Base.{
  ℕ, true, false, ◌≡◌, refl, ap, Option, none, some, List, [], ◌∷◌, ◌++◌, if◌then◌else◌, arith,
  Result, ok, Bool-cases, inl, inr, sub_size, append_assoc,
}
use rproxy.Base.Eq.{nat_eq, same}
use rproxy.Base.Maps.{find, has_key, is_some, erase, assign, find-erase, find-assign}
use rproxy.Network.Addr.{InetAddr}
use rproxy.Network.Demultiplex.{Demultiplex, Effect, tell, closes, epoll_del}
use rproxy.Network.Channel.{destroy_left}
use rproxy.Network.Connection.{TcpConnection}
use rproxy.Network.Connection.Drain.{disconnect_lem}
use rproxy.Network.Server.{
  TcpServer, add_effects, end_connection, remove_connection, update_for_delete, dispatch,
  close_connection,
}

-- What a connection is heard to do as it is closed. Where the server is notified, the descriptor is
-- closed before the demultiplexer drops it.
abbrev pub ending : Demultiplex → TcpConnection → List Effect
ending d c =
    let drops = epoll_del d.dmpfd c.channel.socket in
    if d.notify then closes c.sockfd ∷ drops ∷ [] else drops ∷ closes c.sockfd ∷ []

module _ (dmp : ℕ → Demultiplex) (peer : ℕ → InetAddr) (write : ℕ → List ℕ → Option ℕ) where
  end_connection_left :
      (d : Demultiplex) (c : TcpConnection)
      → c.channel.left ≡ true
      → end_connection d c ≡ ok (closes c.sockfd ∷ [])
  unfolding end_connection
  end_connection_left d c h = rw (destroy_left d c.channel h) refl

  pub remove_connection_left :
      (fd : ℕ) (c : TcpConnection) (sv : TcpServer)
      → find fd sv.conn_map ≡ some c
      → c.channel.left ≡ true
      → remove_connection dmp peer write fd sv
        ≡ ok (record sv {
          total_conn = sub_size sv.total_conn 1;
          conn_map = erase fd sv.conn_map;
          effects = sv.effects ++ (closes c.sockfd ∷ []);
        })
  unfolding remove_connection
  remove_connection_left fd c sv known left =
      rw (remove_connection, known, end_connection_left (dmp fd) c left) refl

  remove_connection_unknown :
      (fd : ℕ) (sv : TcpServer)
      → find fd sv.conn_map ≡ none
      → remove_connection dmp peer write fd sv ≡ ok sv
  unfolding remove_connection
  remove_connection_unknown fd sv unknown = rw (remove_connection, unknown) refl

  pub find_assigned :
      (fd : ℕ) (c : TcpConnection) (m : List (ℕ × TcpConnection))
      → has_key fd m ≡ true
      → find fd (assign fd c m) ≡ some c
  find_assigned fd c m h = ground (arith, nat_eq.beq_iff fd fd, find-assign fd fd c m)

  -- The connection goes, and no other.
  abbrev pub Erases : ℕ → TcpConnection → TcpServer → Result TcpServer → Type 0
  Erases fd c sv r =
      (sv' : TcpServer) × (r ≡ ok sv')
      × ((j : ℕ) → find j sv'.conn_map ≡ (if same fd j then none else find j sv.conn_map))
      × (sv'.effects ≡ sv.effects ++ ending (dmp fd) c)
      × (sv'.id ≡ sv.id)

  find-erase-assign :
      (fd j : ℕ) (c : TcpConnection) (m : List (ℕ × TcpConnection))
      → find j (erase fd (assign fd c m)) ≡ (if same fd j then none else find j m)
  unfolding has_key
  find-erase-assign fd j c m =
      ground (arith, nat_eq.beq_iff fd j, find-erase fd j (assign fd c m), find-assign fd j c m)

  -- Whichever of the two ways removes it.
  pub close_connection-Erases :
      (c : TcpConnection) (sv : TcpServer)
      → find c.channel.socket sv.conn_map ≡ some c
      → Erases c.channel.socket c sv (close_connection dmp peer write c.channel.socket c sv)
  unfolding close_connection dispatch update_for_delete tell has_key
  close_connection-Erases c sv known = elim (Bool-cases ((dmp fd).notify)) [
    | inl told ↦ (
      add_effects (epoll_del (dmp fd).dmpfd fd ∷ []) erased,
      rw
          (
            disconnect_lem (dmp fd) c,
            told,
            remove_connection_left fd c' marked found refl,
            remove_connection_unknown fd (add_effects (epoll_del (dmp fd).dmpfd fd ∷ []) erased)
                gone,
          )
          refl,
      λ j. find-erase-assign fd j c' sv.conn_map,
      ground (
        arith,
        told,
        append_assoc sv.effects (closes c.sockfd ∷ []) (epoll_del (dmp fd).dmpfd fd ∷ []),
      ),
      refl,
    )
    | inr untold ↦
        let gone_from_epoll = add_effects (epoll_del (dmp fd).dmpfd fd ∷ []) marked in
        (
          record gone_from_epoll {
            total_conn = sub_size sv.total_conn 1;
            conn_map = erase fd marked.conn_map;
            effects = gone_from_epoll.effects ++ (closes c.sockfd ∷ []);
          },
          rw
              (
                disconnect_lem (dmp fd) c,
                untold,
                remove_connection_left fd c' gone_from_epoll found refl,
              )
              refl,
          λ j. find-erase-assign fd j c' sv.conn_map,
          ground (
            arith,
            untold,
            append_assoc sv.effects (epoll_del (dmp fd).dmpfd fd ∷ []) (closes c.sockfd ∷ []),
          ),
          refl,
        )
  ]
    where
      fd : ℕ
      fd = c.channel.socket

      c' : TcpConnection
      c' = record c { connected = false; channel = record c.channel { left = true } }

      marked : TcpServer
      marked = record sv { conn_map = assign fd c' sv.conn_map }

      erased : TcpServer
      erased = record marked {
        total_conn = sub_size sv.total_conn 1;
        conn_map = erase fd marked.conn_map;
        effects = sv.effects ++ (closes c.sockfd ∷ []);
      }

      found : find fd marked.conn_map ≡ some c'
      found = find_assigned fd c' sv.conn_map (ap is_some known)

      gone : find fd erased.conn_map ≡ none
      gone = ground (arith, nat_eq.beq_iff fd fd, find-erase fd fd marked.conn_map)
