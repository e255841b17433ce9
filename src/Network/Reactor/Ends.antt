-- ===== src/Network/Reactor/Ends.antt =====
-- What is heard of a connection of a `TcpServer` (src/network/tcp_server.cc) that is closed.
use rproxy.Base.{
  ℕ, ◌+◌, Bool, true, false, ◌&&◌, ◌≡◌, refl, some, ◌++◌, if◌then◌else◌, arith, Bool-cases, inl,
  inr,
}
use rproxy.Base.Eq.{nat_eq, same}
use rproxy.Base.Maps.{find, has_key}
use rproxy.Network.Demultiplex.{Demultiplex}
use rproxy.Network.Connection.{TcpConnection}
use rproxy.Network.Server.{TcpServer}
use rproxy.Network.Server.Close.{ending}
use rproxy.Network.Reactor.Heard.{
  watched_from, watched_from-append, adds, ends_with, total, total-append,
}

-- An epoll instance watches a descriptor just where the descriptor has a connection whose channel
-- belongs to that instance, and the descriptor was closed once for each time that it was registered,
-- but for a connection that it has.
pub record IsHeard (owner : ℕ → Demultiplex) (sv : TcpServer) (fd : ℕ) : Type 0 where
  pub watched :
      (dmpfd : ℕ)
      → watched_from dmpfd fd false sv.effects
        ≡ (has_key fd sv.conn_map && same (owner fd).dmpfd dmpfd)
  pub closed :
      total (adds fd) sv.effects
      ≡ total (ends_with fd) sv.effects + (if has_key fd sv.conn_map then 1 else 0)

-- What is heard of a connection that is closed.
watched-ending :
    (d : Demultiplex) (c : TcpConnection) (fd dmpfd j : ℕ) (w : Bool)
    → c.sockfd ≡ fd
    → c.channel.socket ≡ fd
    → watched_from dmpfd j w (ending d c) ≡ (if same fd j then false else w)
unfolding watched_from
watched-ending d c fd dmpfd j w own about = elim (Bool-cases d.notify) [
  | inl told ↦ rw (told, own, about) (ground arith)
  | inr untold ↦ rw (untold, own, about) (ground arith)
]

adds-ending : (d : Demultiplex) (c : TcpConnection) (j : ℕ) → total (adds j) (ending d c) ≡ 0
unfolding total
adds-ending d c j = elim (Bool-cases d.notify) [
  | inl told ↦ rw told (omega arith)
  | inr untold ↦ rw untold (omega arith)
]

ends-ending :
    (d : Demultiplex) (c : TcpConnection) (fd j : ℕ)
    → c.sockfd ≡ fd
    → total (ends_with j) (ending d c) ≡ (if same fd j then 1 else 0)
unfolding total
ends-ending d c fd j own = elim (Bool-cases d.notify) [
  | inl told ↦ rw (told, own) (omega arith)
  | inr untold ↦ rw (untold, own) (omega arith)
]

-- Where neither the effects nor the key change, nothing else is heard.
pub IsHeard-still :
    (owner : ℕ → Demultiplex) (sv sv' : TcpServer) (j : ℕ)
    → sv'.effects ≡ sv.effects
    → has_key j sv'.conn_map ≡ has_key j sv.conn_map
    → IsHeard owner sv j
    → IsHeard owner sv' j
IsHeard-still owner sv sv' j es key v = record {
  watched = λ dmpfd. rw (es, key) (v.watched dmpfd);
  closed = rw (es, key) v.closed;
}

-- The sums, where `one` says whether the descriptor is the one that ends.
balances :
    (a c a' c' : ℕ) (one had has : Bool)
    → a ≡ c + (if had then 1 else 0)
    → a' ≡ a + 0
    → c' ≡ c + (if one then 1 else 0)
    → has ≡ (if one then false else had)
    → (one ≡ true → had ≡ true)
    → a' ≡ c' + (if has then 1 else 0)
balances a c a' c' true had has e ea ec eh of = ground arith
balances a c a' c' false had has e ea ec eh of = ground arith

pub IsHeard-ended :
    (owner : ℕ → Demultiplex) (c : TcpConnection) (fd : ℕ) (sv sv' : TcpServer) (j : ℕ)
    → find fd sv.conn_map ≡ some c
    → c.sockfd ≡ fd
    → c.channel.socket ≡ fd
    → sv'.effects ≡ sv.effects ++ ending (owner fd) c
    → has_key j sv'.conn_map ≡ (if same fd j then false else has_key j sv.conn_map)
    → IsHeard owner sv j
    → IsHeard owner sv' j
unfolding has_key
IsHeard-ended owner c fd sv sv' j known own about es key v = record {
  watched = λ dmpfd.
      rw
        (
          es,
          key,
          watched_from-append dmpfd j false sv.effects (ending (owner fd) c),
          watched-ending (owner fd) c fd dmpfd j (watched_from dmpfd j false sv.effects) own about,
          v.watched dmpfd,
        )
        (ground arith);
  closed =
      balances (total (adds j) sv.effects) (total (ends_with j) sv.effects)
        (total (adds j) sv'.effects) (total (ends_with j) sv'.effects) (same fd j)
        (has_key j sv.conn_map) (has_key j sv'.conn_map) v.closed
        (rw (es, total-append (adds j) sv.effects (ending (owner fd) c), adds-ending (owner fd) c j)
          refl)
        (rw
          (
            es,
            total-append (ends_with j) sv.effects (ending (owner fd) c),
            ends-ending (owner fd) c fd j own,
          )
          refl)
        key (λ h. ground (arith, nat_eq.beq_iff fd j, known));
}
