-- ===== src/Network/Server/Wait.antt =====
-- `updateForWait` of src/network/tcp_server.cc: which sockets are handed on, and which connections
-- end.
use rproxy.Base.{
  ℕ, Bool, false, not, ◌&&◌, ◌||◌, ◌≡◌, refl, sym, ap, ◌∙◌, Option, none, some, List, [], ◌∷◌, ◌++◌,
  append-nil, if◌then◌else◌, arith, Result, ok, Bool-cases, Option-cases, inl, inr,
}
use rproxy.Base.Eq.{nat_eq, same}
use rproxy.Base.Maps.{find, has_key, assign, find-assign, contains}
use rproxy.Network.Addr.{InetAddr}
use rproxy.Network.Buffer.{readable_bytes}
use rproxy.Network.Demultiplex.{Demultiplex, Effect, readable, writable, closable, meets}
use rproxy.Network.Connection.{TcpConnection}
use rproxy.Network.Connection.Drain.{send_in_loop_idle}
use rproxy.Pubsub.Event.{Resp}
use rproxy.Network.Server.{TcpServer, dispatch, send_rest, wait_one, wait_all}
use rproxy.Network.Server.Close.{ending, close_connection-Erases}

-- The connection of each descriptor is about it, and has nothing left to send.
abbrev pub IsSettled : TcpServer → Type 0
IsSettled sv =
    (fd : ℕ) (c : TcpConnection)
    → find fd sv.conn_map ≡ some c
    → (c.channel.socket ≡ fd) × (readable_bytes c.send_buffer ≡ 0)

-- Whether the events of a connection hand its socket on, and whether they end the connection `fd`.
abbrev pub hands_on : Resp → Bool
hands_on r = meets r.events readable && not (meets r.events closable)

abbrev pub ends : Resp → ℕ → Bool
ends r fd = same r.fd fd && (meets r.events closable && not (meets r.events writable))

abbrev pub ended_by : List Resp → ℕ → Bool
ended_by [] fd = false
ended_by (r ∷ rest) fd = ends r fd || ended_by rest fd

abbrev pub handed_on : List (ℕ × TcpConnection) → List Resp → List ℕ
handed_on m [] = []
handed_on m (r ∷ rest) =
    if has_key r.fd m && hands_on r then r.fd ∷ handed_on m rest else handed_on m rest

abbrev pub descriptors : List Resp → List ℕ
descriptors [] = []
descriptors (r ∷ rest) = r.fd ∷ descriptors rest

-- Events of different descriptors, as `epoll_wait` gives them
abbrev pub AreDistinct : List Resp → Type 0
AreDistinct [] = Unit {0}
AreDistinct (r ∷ rest) = (contains r.fd (descriptors rest) ≡ false) × AreDistinct rest

module _ (dmp : ℕ → Demultiplex) (peer : ℕ → InetAddr) (write : ℕ → List ℕ → Option ℕ) where
  -- What is heard of the connection of the descriptor.
  abbrev pub ending_of : Resp → Option TcpConnection → List Effect
  ending_of r none = []
  ending_of r (some c) = if ends r r.fd then ending (dmp r.fd) c else []

  -- What a round leaves.
  abbrev pub Handles : Resp → TcpServer → Bool → Result (TcpServer × Bool) → Type 0
  Handles r sv handed res =
      (sv' : TcpServer) × (res ≡ ok (sv', handed))
      × ((j : ℕ) → find j sv'.conn_map ≡ (if ends r j then none else find j sv.conn_map))
      × (sv'.effects ≡ sv.effects ++ ending_of r (find r.fd sv.conn_map))
      × (sv'.id ≡ sv.id)

  send_rest-Idle :
      (fd : ℕ) (c : TcpConnection) (sv : TcpServer)
      → find fd sv.conn_map ≡ some c
      → readable_bytes c.send_buffer ≡ 0
      → send_rest dmp peer write fd c sv ≡ ok (record sv { conn_map = assign fd c sv.conn_map })
  unfolding send_rest dispatch
  send_rest-Idle fd c sv known idle = rw (send_in_loop_idle (write fd) (dmp fd) c idle) refl

  wait_one-Handles :
      (r : Resp) (c : TcpConnection) (sv : TcpServer)
      → r.fd ≡ c.channel.socket
      → find r.fd sv.conn_map ≡ some c
      → readable_bytes c.send_buffer ≡ 0
      → Handles r sv (hands_on r) (wait_one dmp peer write r c sv)
  unfolding wait_one has_key
  wait_one-Handles r c sv about known idle = elim (Bool-cases (hands_on r)) [
    | inl hands ↦ (
      sv,
      ground (arith, hands),
      λ j. ground (arith, hands),
      rw known (ground (arith, hands, append-nil sv.effects)),
      refl,
    )
    | inr keeps ↦ elim (Bool-cases (meets r.events writable)) [
      | inl writes ↦ (
        record sv { conn_map = assign r.fd c sv.conn_map },
        ground (arith, keeps, writes, send_rest-Idle r.fd c sv known idle),
        λ j. ground (arith, writes, nat_eq.beq_iff r.fd j, find-assign r.fd j c sv.conn_map, known),
        rw known (ground (arith, writes, append-nil sv.effects)),
        refl,
      )
      | inr still ↦ elim (Bool-cases (meets r.events closable)) [
        | inl closing ↦
            let (sv', run, left, heard, same_id) =
              close_connection-Erases dmp peer write c sv
                (ap (λ fd. find fd sv.conn_map) (sym about) ∙ known) in
            (
              sv',
              ground (arith, keeps, still, closing, run, about),
              λ j. ground (arith, still, closing, left j, about),
              rw known (ground (arith, still, closing, heard, about, nat_eq.beq_iff r.fd r.fd)),
              same_id,
            )
        | inr open' ↦ (
          sv,
          ground (arith, keeps, still, open'),
          λ j. ground (arith, open'),
          rw known (ground (arith, open', append-nil sv.effects)),
          refl,
        )
      ]
    ]
  ]

  pub IsSettled-after :
      (r : Resp) (sv sv' : TcpServer)
      → IsSettled sv
      → ((j : ℕ) → find j sv'.conn_map ≡ (if ends r j then none else find j sv.conn_map))
      → IsSettled sv'
  IsSettled-after r sv sv' v left fd c e = v fd c (ground (arith, left fd))

  -- What is handed on depends only on which of the descriptors have a connection.
  handed_on-after :
      (r : Resp) (rest : List Resp) (m m' : List (ℕ × TcpConnection))
      → contains r.fd (descriptors rest) ≡ false
      → ((j : ℕ) → find j m' ≡ (if ends r j then none else find j m))
      → handed_on m' rest ≡ handed_on m rest
  unfolding has_key contains
  handed_on-after r [] m m' other left = refl
  handed_on-after r (q ∷ rest) m m' other left = ground (
    arith,
    nat_eq.beq_iff r.fd q.fd,
    nat_eq.beq_iff q.fd r.fd,
    left q.fd,
    handed_on-after r rest m m' (ground (arith, other)) left,
  )

  -- A round, whether or not the descriptor has a connection.
  pub round-Handles :
      (r : Resp) (sv : TcpServer)
      → IsSettled sv
      → Handles r sv (has_key r.fd sv.conn_map && hands_on r) (elim (find r.fd sv.conn_map) [
        | none ↦ ok (sv, false)
        | some c ↦ wait_one dmp peer write r c sv
      ])
  unfolding has_key
  round-Handles r sv v = elim (Option-cases (find r.fd sv.conn_map)) [
    | inl unknown ↦ (
      sv,
      ground (arith, unknown),
      λ j. ground (arith, nat_eq.beq_iff r.fd j, unknown),
      rw unknown (sym (append-nil sv.effects)),
      refl,
    )
    | inr (c, known) ↦
        let (sv', run, left, heard, same_id) =
          wait_one-Handles r c sv (sym (v r.fd c known).0) known (v r.fd c known).1 in
        (sv', ground (arith, known, run), left, heard, same_id)
  ]

  -- The events of some descriptors, on a server whose connections have nothing left to send: the loop
  -- comes to its end without a fault. In the order of the events, it hands on the sockets that have a
  -- connection, can be read and do not hang up; the connections that end are those that hang up and
  -- cannot be written to, and the others stay as they were, as does the server's identity.
  pub wait_all-Hands :
      (resps : List Resp) (sv : TcpServer)
      → IsSettled sv
      → AreDistinct resps
      → (sv' : TcpServer) × (wait_all dmp peer write resps sv
          ≡ ok (sv', handed_on sv.conn_map resps))
        × ((j : ℕ) → find j sv'.conn_map ≡ (if ended_by resps j then none else find j sv.conn_map))
        × (sv'.id ≡ sv.id)
  unfolding wait_all
  wait_all-Hands [] sv v d = (sv, refl, λ j. refl, refl)
  wait_all-Hands (r ∷ rest) sv v d =
      let (sv₁, run, left, heard, same_id) = round-Handles r sv v in
      let (sv₂, go, left', same_id') =
        wait_all-Hands rest sv₁ (IsSettled-after r sv sv₁ v left) d.1 in
      (
        sv₂,
        rw (run, go, handed_on-after r rest sv.conn_map sv₁.conn_map d.0 left) refl,
        λ j. ground (arith, left j, left' j),
        same_id' ∙ same_id,
      )
