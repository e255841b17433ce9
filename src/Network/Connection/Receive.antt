-- ===== src/Network/Connection/Receive.antt =====
-- Receiving in src/network/tcp_connection.cc: `read` writes at `peek()`, where the unread bytes begin.
use rproxy.Base.{
  ℕ, ◌+◌, ◌-◌, ◌≤◌, true, ◌≡◌, refl, ap, ◌∙◌, Option, none, some, List, [], ◌++◌, length, take,
  drop, arith, Result, ok, length-take, take-append_left, take_all, take-take, drop-append_right,
  Option-cases, inl, inr,
}
use rproxy.Network.Buffer.{Buffer, writable_bytes}
use rproxy.Network.Buffer.Storage.{write_range_lem, length-write}
use rproxy.Network.Buffer.Total.{has_written_lem}
use rproxy.Network.Buffer.Invariant.{IsValid, contents, length-contents, writable_bytes_lem}
use rproxy.Network.Demultiplex.{Demultiplex, readable, meets}
use rproxy.Network.Connection.{TcpConnection, Outcome, events_of, disconnect, store_received, read}

-- The connection is open and watched for `events`, and its receive buffer is valid.
pub record IsReady (c : TcpConnection) (events : ℕ) : Type 0 where
  pub open_state : c.connected ≡ true
  pub buffer : IsValid c.recv_buffer
  pub watched : events_of c.context ≡ ok events

-- The kernel gives at most as many bytes as there is room for.
abbrev pub Receives : (ℕ → Option (List ℕ)) → Type 0
Receives received = (room : ℕ) (bytes : List ℕ) → received room ≡ some bytes → length bytes ≤ room

-- What `read` leaves, for what the socket gave: the bytes come before those that were unread, as many
-- of which they replace.
abbrev pub Stores : Demultiplex → TcpConnection → Option (List ℕ) → Result Outcome → Type 0
Stores d c none r = r ≡ disconnect d c
Stores d c (some bytes) r =
    (b : Buffer) × (r ≡ ok (record c { recv_buffer = b }, [], []))
    × IsValid b
    × (take (length bytes) (contents b) ≡ bytes)
    × (length (contents b) ≡ length (contents c.recv_buffer) + length bytes)

-- The window of a buffer into which `src` was written at the reader.
front_of_window :
    (r w : ℕ) (src xs : List ℕ)
    → r ≤ w
    → w + length src ≤ length xs
    → take
        (length src)
        (take (w + length src - r) (drop r (take r xs ++ (src ++ drop (r + length src) xs))))
      ≡ src
front_of_window r w src xs p q =
    ap (λ ys. take (length src) (take (w + length src - r) ys)) window
    ∙ take-take (length src) (w + length src - r) _ (omega arith)
    ∙ take-append_left (length src) src _ (omega arith)
    ∙ take_all (length src) src (omega arith)
  where
    window :
        drop r (take r xs ++ (src ++ drop (r + length src) xs)) ≡ src ++ drop (r + length src) xs
    window = drop-append_right r 0 (take r xs) _ (omega (arith, length-take {0} r xs))

store_received-Stores :
    (d : Demultiplex) (c : TcpConnection) (bytes : List ℕ)
    → IsValid c.recv_buffer
    → c.recv_buffer.writer + length bytes ≤ length c.recv_buffer.bytes
    → Stores d c (some bytes) (store_received c.recv_buffer.reader bytes c)
unfolding store_received
store_received-Stores d c bytes v fits = (
  b,
  rw (write_range_lem r bytes xs (omega arith), has_written_lem before (length bytes) unmoved room)
      refl,
  valid,
  front_of_window r w bytes xs (omega arith) fits,
  omega (arith, length-contents valid, length-contents v),
)
  where
    r : ℕ
    r = c.recv_buffer.reader

    w : ℕ
    w = c.recv_buffer.writer

    xs : List ℕ
    xs = c.recv_buffer.bytes

    storage : List ℕ
    storage = take r xs ++ (bytes ++ drop (r + length bytes) xs)

    before : Buffer
    before = record c.recv_buffer { bytes = storage }

    b : Buffer
    b = record before { writer = w + length bytes }

    size : length storage ≡ length xs
    size = length-write r bytes xs (omega arith)

    unmoved : IsValid before
    unmoved = omega (arith, size)

    room : w + length bytes ≤ length storage
    room = omega (arith, size)

    valid : IsValid b
    valid = omega (arith, size)

-- `read` of a ready connection: where the socket fails, the connection is closed. Otherwise the buffer
-- stays valid and its readable bytes grow by those received, which come first: they take the place of
-- unread bytes, where there are any.
pub read-Stores :
    (received : ℕ → Option (List ℕ)) (events : ℕ) (d : Demultiplex) (c : TcpConnection)
    → IsReady c events
    → meets events readable ≡ true
    → Receives received
    → Stores d c (received (writable_bytes c.recv_buffer)) (read received d c)
unfolding read
read-Stores received events d c o on answers = elim (Option-cases room) [
  | inl failed ↦ rw (fails failed, failed) refl
  | inr (bytes, got) ↦
      rw (stores bytes got, got)
        (store_received-Stores d c bytes o.buffer
          (omega (arith, answers _ bytes got, o.buffer.inside, writable_bytes_lem o.buffer)))
]
  where
    room : Option (List ℕ)
    room = received (writable_bytes c.recv_buffer)

    fails : room ≡ none → read received d c ≡ disconnect d c
    fails h = ground (arith, o.open_state, o.watched)

    stores :
        (bytes : List ℕ)
        → room ≡ some bytes
        → read received d c ≡ store_received c.recv_buffer.reader bytes c
    stores bytes h = ground (arith, o.open_state, o.watched)
