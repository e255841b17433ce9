-- ===== src/Network/Socket/Tests.antt =====
-- Runs of src/network/stream_socket.cc over a kernel that hands out its descriptors in turn.
use rproxy.Base.{◌≡◌, refl, arith}
use rproxy.Network.Socket.{connect_target, addr_of}
use rproxy.Network.Socket.Local.{calls, web}
use rproxy.Network.Socket.Peer.{addr_of-connect_target}

addr_of-connect_target_example : addr_of calls (connect_target calls web) ≡ web
addr_of-connect_target_example = addr_of-connect_target calls web (omega arith) (ground arith) refl
