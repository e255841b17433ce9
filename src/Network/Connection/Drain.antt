-- ===== src/Network/Connection/Drain.antt =====
-- Sending what waits in the buffer, `sendInLoop` of src/network/tcp_connection.cc.
use rproxy.Base.{
  ℕ, ◌-◌, ◌≤◌, ◌<◌, Bool, true, false, ◌&&◌, ◌≡◌, refl, ap, ◌∙◌, Option, List, [], ◌++◌, length,
  take, arith, ltb, ◌==◌, Result, ok, err, undefined, Bool-cases, inl, inr, length-drop,
  take-append-drop,
}
use rproxy.Pubsub.Event.{register_ctx}
use rproxy.Network.Buffer.{Buffer, readable_bytes}
use rproxy.Network.Buffer.Invariant.{IsValid, contents, length-contents, readable_bytes_lem}
use rproxy.Network.Buffer.Total.{retrieve-Gives, read_all}
use rproxy.Network.Demultiplex.{Demultiplex, readable, meets}
use rproxy.Network.Channel.{disable_write-register_ctx, leaves, leave_lem}
use rproxy.Network.Connection.{
  TcpConnection, Outcome, events_of, disconnect, took, after_write, send_in_loop,
}
use rproxy.Network.Connection.Send.{Answers, IsOpen, Passes, events_of_lem}

-- Where `drained`, the call faults; elsewhere it goes well.
abbrev pub Drains : Bool → TcpConnection → List ℕ → Result Outcome → Type 0
Drains true c q r = r ≡ err undefined
Drains false c q r = Passes c q r

readable-length : (b : Buffer) → IsValid b → readable_bytes b ≡ length (contents b)
readable-length b v = omega (arith, readable_bytes_lem v, length-contents v)

after_write-Drains :
    (wrote events : ℕ) (d : Demultiplex) (c : TcpConnection)
    → IsOpen c events
    → wrote ≤ length (contents c.send_buffer)
    → Drains
        (wrote == length (contents c.send_buffer))
        c
        (contents c.send_buffer)
        (after_write wrote (contents c.send_buffer) d c)
unfolding after_write
after_write-Drains wrote events d c o h =
    let (b, run, valid, holds) = retrieve-Gives c.send_buffer wrote o.buffer h in
    let left : readable_bytes b ≡ length (contents c.send_buffer) - wrote = omega (
      arith,
      readable-length b valid,
      ap length holds,
      length-drop {0} wrote (contents c.send_buffer),
    ) in
    let (fd, dmp, ctx) = o.watched in
    elim (Bool-cases (wrote == length (contents c.send_buffer))) [
      | inl all ↦
          rw
            (
              all,
              run,
              is_zero (readable_bytes b) (ground (arith, left)),
              disable_write-register_ctx d c.channel c.context ctx,
            )
            refl
      | inr part ↦
          rw (part, run, is_positive (readable_bytes b) (ground (arith, left)))
            (
              record c { send_buffer = b },
              take wrote (contents c.send_buffer),
              [],
              refl,
              valid,
              ap (◌++◌ (take wrote (contents c.send_buffer))) holds
                  ∙ take-append-drop wrote (contents c.send_buffer),
            )
    ]
  where
    is_zero : (n : ℕ) → n ≡ 0 → (n == 0) ≡ true
    is_zero n e = ground arith

    is_positive : (n : ℕ) → 0 < n → (n == 0) ≡ false
    is_positive n e = ground arith

-- `sendInLoop` on an open connection sends a part of what waits, in order, and keeps the rest; but
-- where the kernel takes all of it, the process follows a null pointer, since the context of the
-- connection is not of the class that `disableWrite` expects.
pub send_in_loop-Drains :
    (write : List ℕ → Option ℕ) (events : ℕ) (d : Demultiplex) (c : TcpConnection)
    → IsOpen c events
    → Answers write
    → let n = length (contents c.send_buffer) in
      Drains
        (ltb 0 n && (meets events readable && took (write (contents c.send_buffer)) == n))
        c
        (contents c.send_buffer)
        (send_in_loop write d c)
unfolding send_in_loop
send_in_loop-Drains write events d c o answers = elim (Bool-cases (ltb 0 (length waiting))) [
  | inr none' ↦ rw (none', is_idle none') (c, [], [], refl, o.buffer, refl)
  | inl some' ↦ elim (Bool-cases (meets events readable && ltb 0 wrote)) [
    | inl go ↦
        rw (some', runs some' go, same_test go)
          (after_write-Drains wrote events d c o (answers waiting))
    | inr stop ↦
        rw (some', waits some' stop, other_test some' stop) (c, [], [], refl, o.buffer, refl)
  ]
]
  where
    waiting : List ℕ
    waiting = contents c.send_buffer

    wrote : ℕ
    wrote = took (write waiting)

    is_idle : ltb 0 (length waiting) ≡ false → send_in_loop write d c ≡ ok (c, [], [])
    is_idle h = ground (arith, readable-length c.send_buffer o.buffer)

    runs :
        ltb 0 (length waiting) ≡ true
        → meets events readable && ltb 0 wrote ≡ true
        → send_in_loop write d c ≡ after_write wrote waiting d c
    runs h g = ground (
      arith,
      readable-length c.send_buffer o.buffer,
      events_of_lem o,
      read_all c.send_buffer o.buffer,
    )

    waits :
        ltb 0 (length waiting) ≡ true
        → meets events readable && ltb 0 wrote ≡ false
        → send_in_loop write d c ≡ ok (c, [], [])
    waits h g = ground (
      arith,
      readable-length c.send_buffer o.buffer,
      events_of_lem o,
      read_all c.send_buffer o.buffer,
    )

    same_test :
        meets events readable && ltb 0 wrote ≡ true
        → meets events readable && wrote == length waiting ≡ (wrote == length waiting)
    same_test g = ground arith

    other_test :
        ltb 0 (length waiting) ≡ true
        → meets events readable && ltb 0 wrote ≡ false
        → (meets events readable && wrote == length waiting) ≡ false
    other_test h g = ground arith

-- Where nothing waits, nothing is done.
pub send_in_loop_idle :
    (write : List ℕ → Option ℕ) (d : Demultiplex) (c : TcpConnection)
    → readable_bytes c.send_buffer ≡ 0
    → send_in_loop write d c ≡ ok (c, [], [])
unfolding send_in_loop
send_in_loop_idle write d c h = ground arith

pub disconnect_lem :
    (d : Demultiplex) (c : TcpConnection)
    → disconnect d c
      ≡ ok (
        record c { connected = false; channel = record c.channel { left = true } },
        [],
        leaves d c.channel.socket,
      )
unfolding disconnect
disconnect_lem d c = rw (leave_lem d c.channel) refl

-- A connection that is not watched for reading sends nothing.
pub send_in_loop_unread :
    (write : List ℕ → Option ℕ) (d : Demultiplex) (c : TcpConnection) (events fd : ℕ)
    (own : Option ℕ)
    → c.context.body ≡ register_ctx fd events own
    → meets events readable ≡ false
    → IsValid c.send_buffer
    → send_in_loop write d c ≡ ok (c, [], [])
unfolding send_in_loop events_of
send_in_loop_unread write d c events fd own body off v =
    ground (arith, body, off, read_all c.send_buffer v)
