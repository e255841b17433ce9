-- ===== src/Proxy/Packet/Tests.antt =====
-- The packet of src/proxy/proxy_server.cc at concrete inputs.
use rproxy.Base.{ℕ, false, some, [], ◌∷◌, min, length, arith, ◌≡◌, refl, err, undefined}
use rproxy.Network.Addr.{InetAddr}
use rproxy.Proxy.Packet.{Stream, zeroed, attach, forward, overwrite, max_packet_size}
use rproxy.Proxy.Packet.Loop.{StreamLaws}
use rproxy.Proxy.Packet.Forward.{Forwards, forward-Forwards}

-- "192.168.1.1"
abbrev far : InetAddr
far = record {
  ip = b'1' ∷ b'9' ∷ b'2' ∷ b'.' ∷ b'1' ∷ b'6' ∷ b'8' ∷ b'.' ∷ b'1' ∷ b'.' ∷ b'1' ∷ [];
  port = 80;
}

-- The text of a common address is longer than the packet's array.
far_spills : attach far zeroed ≡ err undefined
unfolding attach overwrite zeroed
far_spills = refl

-- A socket with three bytes to read, to which one byte can be sent at a time.
abbrev dribble : Stream ℕ
dribble = record {
  read = λ fd count s. (some (7 ∷ 8 ∷ 9 ∷ []), false, s);
  send = λ fd bytes s. (some (min 1 (length bytes)), s);
}

dribble-StreamLaws : StreamLaws dribble
unfolding max_packet_size
dribble-StreamLaws = record {
  read_fits = λ fd s bytes e. ground (arith, e);
  send_fits = λ fd n bytes s e. ground (arith, e);
  send_moves = λ fd n bytes s e h. ground (arith, e);
}

forward-Forwards_example :
    Forwards dribble dribble-StreamLaws 4
      (some (7 ∷ 8 ∷ 9 ∷ []))
      false
      (forward dribble 3 4 zeroed 0)
forward-Forwards_example = forward-Forwards dribble dribble-StreamLaws 3 4 zeroed 0
