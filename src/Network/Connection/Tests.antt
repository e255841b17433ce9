-- ===== src/Network/Connection/Tests.antt =====
-- `TcpConnection` of src/network/tcp_connection.cc at concrete inputs.
use rproxy.Base.{
  ℕ, zero, suc, ◌≡◌, refl, true, false, List, [], ◌∷◌, Option, none, some, arith, err, undefined,
  min, length,
}
use rproxy.Pubsub.Event.{dmp_register, Context, register_ctx}
use rproxy.Network.Buffer.{Buffer, writable_bytes}
use rproxy.Network.Buffer.Invariant.{IsValid}
use rproxy.Network.Demultiplex.{Demultiplex, default_events}
use rproxy.Network.Connection.{TcpConnection, send, send_in_loop, read, events_of}
use rproxy.Network.Connection.Send.{Answers, IsOpen, Passes, send-Passes}
use rproxy.Network.Connection.Drain.{send_in_loop-Drains}
use rproxy.Network.Connection.Receive.{IsReady, Receives, Stores, read-Stores}

abbrev loop : Demultiplex
loop = record { id = 1; dmpfd = 3; notify = false }

-- Six bytes of storage; "bc" is readable.
abbrev two_left : Buffer
two_left = record { reader = 2; writer = 4; bytes = 0 ∷ 97 ∷ 98 ∷ 99 ∷ 0 ∷ 0 ∷ [] }

abbrev nothing_left : Buffer
nothing_left = record { reader = 2; writer = 2; bytes = 0 ∷ 0 ∷ 0 ∷ 0 ∷ 0 ∷ 0 ∷ [] }

abbrev context : Context
context = record { event_type = dmp_register; body = register_ctx 7 default_events none }

abbrev joined : Buffer → Buffer → TcpConnection
joined recv send = record {
  sockfd = 7;
  channel = record { left = false; socket = 7 };
  recv_buffer = recv;
  send_buffer = send;
  connected = true;
  context = context;
}

-- A kernel that takes two bytes at most.
abbrev takes_two : List ℕ → Option ℕ
takes_two bytes = some (min 2 (length bytes))

takes_two-Answers : Answers takes_two
takes_two-Answers bytes = omega arith

joined-IsOpen : (b : Buffer) → IsValid b → IsOpen (joined nothing_left b) default_events
joined-IsOpen b v = record { open_state = refl; buffer = v; watched = (7, none, refl) }

-- Three bytes, of which the kernel takes two.
send-Passes_example :
    Passes
      (joined nothing_left nothing_left)
      (1 ∷ 2 ∷ 3 ∷ [])
      (send takes_two (1 ∷ 2 ∷ 3 ∷ []) 3 loop (joined nothing_left nothing_left))
send-Passes_example =
    send-Passes takes_two (1 ∷ 2 ∷ 3 ∷ []) 3 default_events loop (joined nothing_left nothing_left)
      (joined-IsOpen nothing_left (omega arith)) (omega arith) (omega arith)

-- Two bytes wait, and the kernel takes both.
send_in_loop-Drains_example :
    send_in_loop takes_two loop (joined nothing_left two_left) ≡ err undefined
send_in_loop-Drains_example =
    send_in_loop-Drains takes_two default_events loop (joined nothing_left two_left)
      (joined-IsOpen two_left (omega arith)) takes_two-Answers

-- A socket that gives one byte, 120, where there is room for it.
abbrev gives_x : ℕ → Option (List ℕ)
gives_x zero = some []
gives_x (suc n) = some (120 ∷ [])

gives_x-Receives : Receives gives_x
gives_x-Receives zero bytes e = ground arith
gives_x-Receives (suc n) bytes e = ground arith

two_left-IsReady : IsReady (joined two_left nothing_left) default_events
unfolding events_of
two_left-IsReady = record { open_state = refl; buffer = omega arith; watched = refl }

read-Stores_example :
    Stores loop
      (joined two_left nothing_left)
      (gives_x (writable_bytes two_left))
      (read gives_x loop (joined two_left nothing_left))
read-Stores_example =
    read-Stores gives_x default_events loop (joined two_left nothing_left) two_left-IsReady refl
      gives_x-Receives
