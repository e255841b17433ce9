-- ===== src/Lifetime/Server.antt =====
-- The constructor and the destructor of `TcpServer` (src/network/tcp_server.cc): whose notifications
-- reach it in between, and what the center is left with.
use rproxy.Base.{
  ℕ, Bool, true, false, ◌≡◌, refl, not, ◌&&◌, ◌||◌, List, arith, Result, ok, err, endless,
}
use rproxy.Base.Eq.{same, same_refl, nat_eq}
use rproxy.Base.Maps.{contains}
use rproxy.Network.Socket.{Calls, set_non_blocking}
use rproxy.Network.Socket.Granted.{Grants, open_socket_granted, listen_granted, reuse_granted}
use rproxy.Pubsub.Event.{
  PubType, accepted, dmp_register, dmp_modify, dmp_delete, dmp_wait, pub_type_eq,
}
use rproxy.Pubsub.Center.{Center}
use rproxy.Lifetime.{
  Given, is_empty, init_group, join_all, server_events, new_flags, stop_group, stop_loop, close_all,
  Parts, open_acceptor, open_server, un_subscribe_server, close_server,
}
use rproxy.Lifetime.View.{
  View, View-weaken, unknown_silent, register_pub-View, un_register_pub-View, subscribe-View,
  un_subscribe-View,
}
use rproxy.Lifetime.Group.{
  among, among_given, AllGranted, subscribe_all-View, un_subscribe_all-View, open_all-View,
  close_all-View,
}

-- The register, the modify, the delete and the wait of a demultiplexer
abbrev pub of_demultiplexer : PubType → Bool
of_demultiplexer dmp_register = true
of_demultiplexer dmp_modify = true
of_demultiplexer dmp_delete = true
of_demultiplexer dmp_wait = true
of_demultiplexer _ = false

server_events_lem : (t : PubType) → contains t server_events ≡ of_demultiplexer t
unfolding contains
server_events_lem t = ground arith

-- The events that the server is to hear of.
abbrev pub hears : Parts → ℕ → PubType → Bool
hears ps i t = (same ps.acceptor i && same accepted t) || (among i ps.dmpes && of_demultiplexer t)

module _ {S : Type 0} (k : Calls S) {knows : ℕ → Bool} {told : ℕ → PubType → ℕ → Bool} {c : Center}
    (v : View c knows told) where
  -- What the center knows and tells once a server is made.
  abbrev pub Wires : ℕ → List Given → ℕ → Result (Parts × S × Center) → Type 0
  Wires id ms this r =
      (ps : Parts) × (s' : S) × (c' : Center) × (r ≡ ok (ps, s', c'))
      × View c' (λ i. among_given i ms || (same id i || knows i))
          (λ i t x. (hears ps i t && same this x) || told i t x)
      × (ps.acceptor ≡ id)
      × (ps.flags ≡ new_flags)
      × ((i : ℕ) → among i ps.dmpes ≡ among_given i ms)

  -- The constructor of a TCP server, over a kernel that refuses nothing, succeeds. Afterwards the
  -- server hears of each accepted socket of its acceptor and of the register, modify, delete and wait
  -- of each of its demultiplexers, and of nothing else that it did not hear of before; nobody else is
  -- told anything more; and the center knows, besides those of before, the acceptor and the
  -- demultiplexers, but not the server.
  pub open_server-Wires :
      Grants k
      → (ip port : List ℕ) (id acceptor_this : ℕ) (ms : List Given) (this : ℕ) (s : S)
      → is_empty ms ≡ false
      → AllGranted ms
      → Wires id ms this (open_server k ip port id acceptor_this ms this s c)
  unfolding open_server open_acceptor init_group
  open_server-Wires grants ip port id acceptor_this ms this s some_ms given =
      let (fd, s₁, made) = open_socket_granted k grants ip port s in
      let (s₂, listening) = listen_granted k grants fd s₁ in
      let (c₁, registered, v₁) = register_pub-View v id acceptor_this in
      let (ds, c₂, opened, v₂, ids) = open_all-View ms given v₁ in
      let (s₃, again) = listen_granted k grants fd s₂ in
      let (s₄, reused) = reuse_granted k grants (record { sockfd = fd; ip = ip; port = port }) s₃ in
      let (c₃, first, v₃) = subscribe-View v₂ id this accepted in
      let (c₄, all, v₄) = subscribe_all-View this ds server_events v₃ in
      (
        record {
          server = record { sockfd = fd; ip = ip; port = port };
          acceptor = id;
          dmpes = ds;
          flags = new_flags;
        },
        set_non_blocking k fd s₄,
        c₄,
        rw (made, listening, registered, some_ms, opened, again, reused, first, all) refl,
        View-weaken v₄ (λ i. rw (ids i) refl)
            (λ i t x. ground (arith, same_refl id, server_events_lem t)),
        refl,
        refl,
        ids,
      )

-- The identity belongs to the server's acceptor or to one of its demultiplexers.
abbrev pub is_part : Parts → ℕ → Bool
is_part ps i = among i ps.dmpes || same ps.acceptor i

-- The server where the group of its loop was told to stop.
abbrev pub stopped : Parts → Parts
stopped ps = record ps { flags = stop_group ps.flags }

module _ {S : Type 0} (k : Calls S) where
  un_subscribe_server-View :
      {knows : ℕ → Bool} {told : ℕ → PubType → ℕ → Bool} {c : Center} (ps : Parts) (this : ℕ)
      → View c knows told
      → (c' : Center) × (un_subscribe_server k ps this c ≡ ok c')
        × View c' knows (λ i t x. not (hears ps i t && same this x) && told i t x)
  unfolding un_subscribe_server
  un_subscribe_server-View ps this v =
      let (c₁, first, v₁) = un_subscribe-View v ps.acceptor this accepted in
      let (c₂, all, v₂) = un_subscribe_all-View this ps.dmpes server_events v₁ in
      (
        c₂,
        rw (first, all) refl,
        View-weaken v₂ (λ i. refl) (λ i t x. ground (arith, server_events_lem t)),
      )

  -- The destructor as it is, and where the group was told to stop before.
  abbrev pub Closes : Parts → ℕ → (ℕ → Bool) → (ℕ → PubType → ℕ → Bool) → S → Center → Type 0
  Closes ps this knows told s c =
      (close_server k ps this s c ≡ err endless)
      × (s' : S) × (c' : Center) × (close_server k (stopped ps) this s c ≡ ok (s', c'))
      × View c' (λ i. not (is_part ps i) && knows i) (λ i t x. not (is_part ps i) && told i t x)

  close_server-Closes :
      {knows : ℕ → Bool} {told : ℕ → PubType → ℕ → Bool} {c : Center} (ps : Parts) (this : ℕ)
      (s : S)
      → ps.flags ≡ new_flags
      → View c knows told
      → Closes ps this knows told s c
  unfolding close_server stop_loop stop_group new_flags join_all un_subscribe_server close_all
  close_server-Closes ps this s unset v =
      let (c₁, gone, v₁) = un_subscribe_server-View ps this v in
      let v₂ = un_register_pub-View (close_all-View ps.dmpes v₁) ps.acceptor in
      (
        rw (gone, unset) refl,
        k.close ps.server.sockfd (k.close ps.server.sockfd s),
        _,
        rw gone refl,
        View-weaken v₂ (λ i. ground arith) (λ i t x. ground arith),
      )

module _ {S : Type 0} (k : Calls S) {knows : ℕ → Bool} {told : ℕ → PubType → ℕ → Bool} {c : Center}
    (v : View c knows told) where
  -- A server is made, and what its destructor does at once.
  abbrev pub Restores : ℕ → Result (Parts × S × Center) → Type 0
  Restores this r =
      (ps : Parts) × (s₁ : S) × (c₁ : Center) × (r ≡ ok (ps, s₁, c₁))
      × (close_server k ps this s₁ c₁ ≡ err endless)
      × (s₂ : S) × (c₂ : Center) × (close_server k (stopped ps) this s₁ c₁ ≡ ok (s₂, c₂))
      × View c₂ knows told

  -- The constructor of a TCP server, over a kernel that refuses nothing and with identities that the
  -- center does not know, and then its destructor: this does not return, since nobody tells the group
  -- of the loop to stop; where that was done before, the center knows the publishers and tells the
  -- subscribers that it did before the server was made, and no others.
  pub close_server-Restores :
      Grants k
      → (ip port : List ℕ) (id acceptor_this : ℕ) (ms : List Given) (this : ℕ) (s : S)
      → is_empty ms ≡ false
      → AllGranted ms
      → ((i : ℕ) → (among_given i ms || same id i) ≡ true → knows i ≡ false)
      → Restores this (open_server k ip port id acceptor_this ms this s c)
  close_server-Restores grants ip port id acceptor_this ms this s some_ms given new =
      let (ps, s₁, c₁, made, v₁, own, unset, ids) =
        open_server-Wires k v grants ip port id acceptor_this ms this s some_ms given in
      let (endless_close, s₂, c₂, closed, v₂) = close_server-Closes k ps this s₁ unset v₁ in
      let part : (i : ℕ) → is_part ps i ≡ (among_given i ms || same id i) =
        λ i. rw (own, ids i) refl in
      (
        ps,
        s₁,
        c₁,
        made,
        endless_close,
        s₂,
        c₂,
        closed,
        View-weaken v₂ (λ i. ground (arith, part i, new i))
            (λ i t x. ground (arith, part i, new i, unknown_silent v i t x)),
      )
