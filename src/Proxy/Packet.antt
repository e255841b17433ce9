-- ===== src/Proxy/Packet.antt =====
-- `Packet` of src/proxy/packet.hpp, and what src/proxy/proxy_server.cc does with it where MSG_ATTACH
-- is defined: the copies of the client's address into the packet, and `forward`.
pub mod Attach
pub mod Loop
pub mod Forward
mod Tests
use rproxy.Base.{
  ℕ, zero, suc, ◌+◌, ◌-◌, ◌*◌, Bool, Option, none, some, List, [], ◌∷◌, ◌++◌, length, take, drop,
  replicate, ltb, ◌==◌, if◌then◌else◌, Result, ok, err, ◌>>=◌, undefined, endless,
}
use rproxy.Network.Addr.{InetAddr, port_text, to_string}
use rproxy.Proxy.Server.{count}
use rproxy.Pubsub.Center.{Center, account, is_limited}

abbrev pub max_ip_size : ℕ
max_ip_size = 10

abbrev pub max_port_size : ℕ
max_port_size = 6

pub max_packet_size : ℕ
max_packet_size = 64 * 1024

pub record Packet : Type 0 where
  pub ip : List ℕ
  pub port : List ℕ
  pub length_ : ℕ
  pub segment : List ℕ

-- Bytes written over the front of an array; a write behind its end is not defined.
pub overwrite : List ℕ → List ℕ → Result (List ℕ)
overwrite [] old = ok old
overwrite (x ∷ xs) [] = err undefined
overwrite (x ∷ xs) (o ∷ old) = overwrite xs old >>= λ rest. ok (x ∷ rest)

-- The two `std::copy` of `updateForForward`
pub attach : InetAddr → Packet → Result Packet
attach a p = do
  ip' ← overwrite a.ip p.ip
  port' ← overwrite (port_text a) p.port
  ok (record p { ip = ip'; port = port' })

-- `memset(packet, 0, sizeof(*packet))`
pub zeroed : Packet
zeroed = record {
  ip = replicate max_ip_size 0;
  port = replicate max_port_size 0;
  length_ = 0;
  segment = replicate max_packet_size 0;
}

-- The system calls that `forward` makes. `read fd count` gives the bytes, or `none` for -1 and whether
-- `errno` says that the call would block; `send fd bytes` the number of bytes taken, or `none` for -1.
pub record Stream (S : Type 0) : Type 0 where
  pub read : ℕ → ℕ → S → Option (List ℕ) × Bool × S
  pub send : ℕ → List ℕ → S → Option ℕ × S

-- What `forward` answers, the bytes that were taken, and the kernel.
abbrev pub Sent : Type 0 → Type 0
Sent S = ℕ × List ℕ × S

abbrev pub taken_first : {S : Type 0} → List ℕ → Sent S → Sent S
taken_first bytes (total, sent, s) = (total, bytes ++ sent, s)

module _ {S : Type 0} (k : Stream S) where
  -- `packet->segment_ + total`, for `packet->length_ - total` bytes
  pub unsent : Packet → ℕ → List ℕ
  unsent p total = take (p.length_ - total) (drop total p.segment)

  -- `while (true)`, on fuel.
  pub send_loop : ℕ → ℕ → ℕ → Packet → S → Result (Sent S)
  unfolding unsent
  send_loop zero out total p s = err endless
  send_loop (suc fuel) out total p s =
      let (sent, s') = k.send out (unsent p total) s in
      elim sent [
        | none ↦ ok (total, [], s')
        | some n ↦
            let rest = send_loop fuel out (total + n) p s' >>= λ r.
            ok (taken_first (take n (unsent p total)) r) in
            if total + n == p.length_ then ok (total + n, take n (unsent p total), s') else rest
      ]

  -- `forward`: -1 is `none`. After an error that is not "would block" the length is -1 as a `size_t`,
  -- and the kernel is told to read far behind the packet.
  pub forward : ℕ → ℕ → Packet → S → Result (Option ℕ × Packet × List ℕ × S)
  forward in_fd out_fd p s =
      let (recved, again, s') = k.read in_fd max_packet_size s in
      elim recved [
        | none ↦ if again then ok (none, zeroed, [], s') else err undefined
        | some bytes ↦ (do
          segment' ← overwrite bytes zeroed.segment
          let packet = record zeroed { length_ = length bytes; segment = segment' }
          (total, sent, s'') ← send_loop (suc (length bytes)) out_fd 0 packet s'
          ok (some total, packet, sent, s''))
      ]

  -- The address enters the packet, the bytes are passed on, and what was sent is accounted for.
  pub forward_from : InetAddr → ℕ → ℕ → Packet → Center → S → Result (Packet × List ℕ × Center × S)
  forward_from a incoming sock p c s = do
    attached ← attach a p
    (total, p', sent, s') ← forward incoming sock attached s
    ok (p', sent, (if ltb 0 (count total) then account (to_string a) (count total) c else c), s')

  -- A client's turn in `updateForForward`, once its backend is known.
  pub attach_and_forward :
      InetAddr → ℕ → ℕ → Packet → Center → S → Result (Packet × List ℕ × Center × S)
  attach_and_forward a incoming sock p c s =
      let passed = forward_from a incoming sock p c s in
      if is_limited (to_string a) c then ok (p, [], c, s) else passed
