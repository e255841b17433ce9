-- ===== src/Network/Connection.antt =====
-- src/network/tcp_connection.hpp and tcp_connection.cc: `TcpConnection`. The socket is a parameter:
-- what `write` and `read` of it give is an argument of each call that may use them.
pub mod Send
pub mod Drain
pub mod Receive
mod Tests
use rproxy.Base.{
  ℕ, ◌+◌, Bool, false, not, ◌&&◌, Option, none, some, List, [], ◌∷◌, length, take, drop, ltb, ◌==◌,
  if◌then◌else◌, Result, ok, err, ◌>>=◌, ◌>>◌, undefined,
}
use rproxy.Pubsub.Event.{dmp_modify, Context, register_ctx, modify_ctx}
use rproxy.Network.Buffer.{
  Buffer, append, retrieve, has_written, readable_bytes, writable_bytes, read_caller, read_range,
  write_range, peek,
}
use rproxy.Network.Demultiplex.{Demultiplex, Effect, shuts_write, readable, writable, meets}
use rproxy.Network.Channel.{Channel, leave, enable_write, disable_write}

pub record TcpConnection : Type 0 where
  pub sockfd : ℕ
  pub channel : Channel
  pub recv_buffer : Buffer
  pub send_buffer : Buffer
  pub connected : Bool
  pub context : Context

-- A call gives the connection that it leaves, the bytes that the kernel took, and its effects.
abbrev pub Outcome : Type 0
Outcome = TcpConnection × List ℕ × List Effect

-- `dynamic_pointer_cast<DmpRegisterContext>(context_)->events_`: through a null pointer for another
-- class.
pub events_of : Context → Result ℕ
events_of ctx = elim ctx.body [ register_ctx fd events dmp ↦ ok events | _ ↦ err undefined ]

-- `disconnect`
pub disconnect : Demultiplex → TcpConnection → Result Outcome
disconnect d c = do
  (ch, effects) ← leave d c.channel
  ok (record c { connected = false; channel = ch }, [], effects)

-- `shutdownWrite`
pub shutdown_write : Demultiplex → TcpConnection → Result Outcome
shutdown_write d c = do
  effects ← disable_write c.context d c.channel
  ok (c, [], shuts_write c.sockfd ∷ effects)

-- What the kernel took of `bytes`, given the answer of `write`: nothing, where that is -1.
abbrev pub took : Option ℕ → ℕ
took none = 0
took (some n) = n

-- What is left to send goes to the buffer, and the socket is watched until it can be written to.
pub keep_rest : ℕ → List ℕ → Demultiplex → TcpConnection → Result (TcpConnection × List Effect)
keep_rest events rest d c = do
  buffer ← append (some rest) (length rest) c.send_buffer
  let c' = record c { send_buffer = buffer }
  let ctx : Context = record { event_type = dmp_modify; body = modify_ctx 0 0 }
  (if meets events writable
      then ok (c', [])
      else (enable_write ctx d c.channel >>= λ effects. ok (c', effects)))

-- The end of `send`, `wrote` bytes having been taken.
pub finish_send : ℕ → List ℕ → ℕ → Demultiplex → TcpConnection → Result Outcome
finish_send wrote bytes events d c =
    let rest = drop wrote bytes in
    let kept = keep_rest events rest d c in
    if ltb 0 (length rest)
    then (kept >>= λ p. ok (p.0, take wrote bytes, p.1))
    else ok (c, take wrote bytes, [])

-- `send(buf, len)`, of a buffer of the caller with the bytes of `src`.
pub send : (List ℕ → Option ℕ) → List ℕ → ℕ → Demultiplex → TcpConnection → Result Outcome
send write src len d c = if not c.connected then ok (c, [], []) else do
  events ← events_of c.context
  bytes ← read_caller src len
  let direct = not (meets events writable) && readable_bytes c.send_buffer == 0
  finish_send (if direct then took (write bytes) else 0) bytes events d c

-- What `sendInLoop` does with `wrote > 0` bytes that were taken. The context of the connection is
-- handed to `disableWrite` where nothing is left.
pub after_write : ℕ → List ℕ → Demultiplex → TcpConnection → Result Outcome
after_write wrote bytes d c = do
  buffer ← retrieve wrote c.send_buffer
  let c' = record c { send_buffer = buffer }
  let drained = disable_write c.context d c.channel
  (if readable_bytes buffer == 0
      then (drained >>= λ effects. ok (c', take wrote bytes, effects))
      else ok (c', take wrote bytes, []))

-- `sendInLoop`
pub send_in_loop : (List ℕ → Option ℕ) → Demultiplex → TcpConnection → Result Outcome
send_in_loop write d c = if readable_bytes c.send_buffer == 0 then ok (c, [], []) else do
  events ← events_of c.context
  bytes ←
      read_range (peek c.send_buffer) (peek c.send_buffer + readable_bytes c.send_buffer)
        c.send_buffer.bytes
  let wrote = took (write bytes)
  (if meets events readable && ltb 0 wrote then after_write wrote bytes d c else ok (c, [], []))

-- What `read` does with the bytes that were received at `target`.
pub store_received : ℕ → List ℕ → TcpConnection → Result Outcome
store_received target bytes c = do
  storage ← write_range target bytes c.recv_buffer.bytes
  buffer ← has_written (length bytes) (record c.recv_buffer { bytes = storage })
  ok (record c { recv_buffer = buffer }, [], [])

-- `read()`: the socket is read into the receive buffer from `peek()` on, as many bytes as are
-- writable. `received` is what `read` gives for that length, `none` for -1.
pub read : (ℕ → Option (List ℕ)) → Demultiplex → TcpConnection → Result Outcome
read received d c =
    let target = peek c.recv_buffer in
    let room = writable_bytes c.recv_buffer in
    if not c.connected then ok (c, [], []) else do
      events ← events_of c.context
      (if meets events readable
          then elim (received room) [
            | none ↦ disconnect d c
            | some bytes ↦ store_received target bytes c
          ]
          else ok (c, [], []))
