-- ===== src/Network/Connection/Send.antt =====
-- Sending in src/network/tcp_connection.cc: no byte is lost, repeated or put out of order.
use Prim.Native.Nat.{bit_or}
use rproxy.Base.{
  lt→ltb, ltb→lt, length-append, ℕ, ◌<◌, ◌+◌, ◌≤◌, Bool, true, false, not, ◌&&◌, ◌≡◌, ◌⊎◌, refl, ap,
  sym, ◌∙◌, Option, List, [], ◌∷◌, ◌++◌, append-nil, length, take, drop, arith, ltb, ◌==◌,
  if◌then◌else◌, Result, ok, Bool-cases, inl, inr, length-take, length-drop, take-append-drop,
}
use rproxy.Pubsub.Event.{register_ctx}
use rproxy.Network.Buffer.{Buffer, max_size, readable_bytes}
use rproxy.Network.Buffer.Invariant.{IsValid, contents}
use rproxy.Network.Buffer.Total.{append-Gives, read_caller_lem, contents_empty}
use rproxy.Network.Demultiplex.{Demultiplex, Effect, writable, default_events, meets}
use rproxy.Network.Channel.{enable_write_lem, watches}
use rproxy.Network.Connection.{
  TcpConnection, Outcome, events_of, took, keep_rest, finish_send, send,
}

-- `write` never answers with more bytes than it was given.
abbrev pub Answers : (List ℕ → Option ℕ) → Type 0
Answers write = (bytes : List ℕ) → took (write bytes) ≤ length bytes

-- The connection is open, with a valid send buffer, and is watched for `events`.
pub record IsOpen (c : TcpConnection) (events : ℕ) : Type 0 where
  pub open_state : c.connected ≡ true
  pub buffer : IsValid c.send_buffer
  pub watched : (fd : ℕ) × (dmp : Option ℕ) × (c.context.body ≡ register_ctx fd events dmp)

-- A call that goes well sends or keeps exactly the bytes of `q`, in order.
abbrev pub Passes : TcpConnection → List ℕ → Result Outcome → Type 0
Passes c q r =
    (c' : TcpConnection) × (sent : List ℕ) × (effects : List Effect) × (r ≡ ok (c', sent, effects))
    × IsValid c'.send_buffer
    × (sent ++ contents c'.send_buffer ≡ q)

pub events_of_lem :
    {c : TcpConnection} {events : ℕ} → IsOpen c events → events_of c.context ≡ ok events
unfolding events_of
events_of_lem o = let (fd, dmp, e) = o.watched in rw e refl

keep_rest_lem :
    (events : ℕ) (rest : List ℕ) (d : Demultiplex) (c : TcpConnection)
    → IsValid c.send_buffer
    → c.send_buffer.writer + length rest ≤ max_size
    → (c' : TcpConnection) × (effects : List Effect) × (keep_rest events rest d c
        ≡ ok (c', effects))
      × IsValid c'.send_buffer
      × (contents c'.send_buffer ≡ contents c.send_buffer ++ rest)
unfolding keep_rest
keep_rest_lem events rest d c v fits =
    let (b, made, valid, holds) = append-Gives c.send_buffer rest v fits in
    elim (Bool-cases (meets events writable)) [
      | inl on ↦ (record c { send_buffer = b }, [], rw (made, on) refl, valid, holds)
      | inr off ↦ (
        record c { send_buffer = b },
        watches d c.channel.socket (bit_or 0 writable),
        rw (made, off, enable_write_lem) refl,
        valid,
        holds,
      )
    ]

in_order :
    (n : ℕ) (bytes old : List ℕ)
    → (n ≡ 0) ⊎ (old ≡ [])
    → take n bytes ++ (old ++ drop n bytes) ≡ old ++ bytes
in_order n bytes old (inl z) = rw z refl
in_order n bytes old (inr e) = rw (e, take-append-drop) refl

all_sent :
    (n : ℕ) (bytes old : List ℕ)
    → (n ≡ 0) ⊎ (old ≡ [])
    → drop n bytes ≡ []
    → take n bytes ++ old ≡ old ++ bytes
all_sent n bytes old h e =
    ap (◌++◌ (take n bytes)) (sym (append-nil old) ∙ ap (◌++◌ old) (sym e)) ∙ in_order n bytes old h

nil_of_length : (xs : List ℕ) → ltb 0 (length xs) ≡ false → xs ≡ []
nil_of_length [] h = refl
nil_of_length (x ∷ xs) h = ground arith

finish_send-Passes :
    (wrote : ℕ) (bytes : List ℕ) (events : ℕ) (d : Demultiplex) (c : TcpConnection)
    → IsValid c.send_buffer
    → c.send_buffer.writer + length bytes ≤ max_size
    → (wrote ≡ 0) ⊎ (contents c.send_buffer ≡ [])
    → Passes c (contents c.send_buffer ++ bytes) (finish_send wrote bytes events d c)
unfolding finish_send
finish_send-Passes wrote bytes events d c v fits h =
    elim (Bool-cases (ltb 0 (length (drop wrote bytes)))) [
      | inl more ↦
          let (c', effects, run, valid, holds) =
            keep_rest_lem events (drop wrote bytes) d c v
              (omega (arith, length-drop {0} wrote bytes)) in
          (
            c',
            take wrote bytes,
            effects,
            rw (more, run) refl,
            valid,
            ap (◌++◌ (take wrote bytes)) holds ∙ in_order wrote bytes (contents c.send_buffer) h,
          )
      | inr done ↦ (
        c,
        take wrote bytes,
        [],
        rw done refl,
        v,
        all_sent wrote bytes (contents c.send_buffer) h (nil_of_length _ done),
      )
    ]

-- `send` on an open connection: the bytes that the kernel takes, and then those that wait in the
-- buffer, are the bytes that waited before and then those that were given, whatever `write` answers.
pub send-Passes :
    (write : List ℕ → Option ℕ) (src : List ℕ) (len events : ℕ) (d : Demultiplex)
    (c : TcpConnection)
    → IsOpen c events
    → len ≤ length src
    → c.send_buffer.writer + len ≤ max_size
    → Passes c (contents c.send_buffer ++ take len src) (send write src len d c)
unfolding send
send-Passes write src len events d c o h fits = rw run (
    finish_send-Passes wrote (take len src) events d c o.buffer
      (omega (arith, length-take {0} len src)) blocked)
  where
    direct : Bool
    direct = not (meets events writable) && readable_bytes c.send_buffer == 0

    wrote : ℕ
    wrote = if direct then took (write (take len src)) else 0

    run : send write src len d c ≡ finish_send wrote (take len src) events d c
    run = ground (arith, o.open_state, events_of_lem o, read_caller_lem src len h)

    blocked : (wrote ≡ 0) ⊎ (contents c.send_buffer ≡ [])
    blocked = elim (Bool-cases direct) [
      | inl yes' ↦ inr (contents_empty c.send_buffer o.buffer (ground arith))
      | inr no' ↦ inl (ground arith)
    ]

-- Where the kernel does not take all, what is left is kept, and the socket is watched until it can be
-- written to, and for nothing else.
pub send_partial :
    (write : List ℕ → Option ℕ) (src : List ℕ) (len : ℕ) (d : Demultiplex) (c : TcpConnection)
    → IsOpen c default_events
    → len ≤ length src
    → c.send_buffer.writer + len ≤ max_size
    → took (write (take len src)) < len
    → (b : Buffer) × (sent : List ℕ) × (send write src len d c
        ≡ ok (record c { send_buffer = b }, sent, watches d c.channel.socket writable))
      × IsValid b
      × (0 < length (contents b))
unfolding send finish_send keep_rest
send_partial write src len d c o h fits part =
    let (b, made, valid, holds) =
      append-Gives c.send_buffer rest o.buffer
        (omega (arith, length-drop {0} wrote (take len src), length-take {0} len src)) in
    (
      b,
      take wrote (take len src),
      run ∙ rw (more, made, enable_write_lem) refl,
      valid,
      omega (
        arith,
        ap length holds,
        length-append {0} (contents c.send_buffer) rest,
        ltb→lt 0 (length rest) more,
      ),
    )
  where
    direct : Bool
    direct = readable_bytes c.send_buffer == 0

    wrote : ℕ
    wrote = if direct then took (write (take len src)) else 0

    rest : List ℕ
    rest = drop wrote (take len src)

    fewer : wrote < len
    fewer = elim (Bool-cases direct) [
      | inl yes' ↦ ground (arith, part)
      | inr no' ↦ ground (arith, part)
    ]

    more : ltb 0 (length rest) ≡ true
    more =
        lt→ltb 0 (length rest)
          (omega (arith, fewer, length-drop {0} wrote (take len src), length-take {0} len src))

    run : send write src len d c ≡ finish_send wrote (take len src) default_events d c
    run = ground (arith, o.open_state, events_of_lem o, read_caller_lem src len h)
