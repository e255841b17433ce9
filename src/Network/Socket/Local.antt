-- ===== src/Network/Socket/Local.antt =====
-- A kernel over which the calls of src/network/stream_socket.cc succeed, for the tests: it hands out
-- its descriptors in turn.
use rproxy.Base.{ℕ, ◌+◌, true, false, not, ◌==◌, some, List, [], ◌∷◌, refl}
use rproxy.Network.Addr.{InetAddr}
use rproxy.Network.Socket.{Calls}
use rproxy.Network.Socket.Granted.{Grants}

-- "127.0.0.1"
abbrev pub home_text : List ℕ
home_text = b'1' ∷ b'2' ∷ b'7' ∷ b'.' ∷ b'0' ∷ b'.' ∷ b'0' ∷ b'.' ∷ b'1' ∷ []

-- The state is the next descriptor; a connection to port 0 fails.
abbrev pub calls : Calls ℕ
calls = record {
  inet_addr = λ _. 16777343;
  inet_aton = λ _. some 16777343;
  inet_ntoa = λ _. home_text;
  socket = λ s. (some s, s + 1);
  bind = λ _ _ s. (true, s);
  listen = λ _ _ s. (true, s);
  accept = λ _ s. (some s, false, s + 1);
  connect = λ _ a s. (not (a.sin_port == 0), s);
  setsockopt = λ _ _ s. (true, s);
  fcntl = λ _ _ s. (0, s);
  getpeername = λ _ _. record { sin_family = 2; sin_addr = 16777343; sin_port = 20480 };
  close = λ _ s. s;
}

abbrev pub web : InetAddr
web = record { ip = home_text; port = 80 }

pub calls-Grants : Grants calls
calls-Grants = record {
  gives = λ s. (s, refl);
  binds = λ fd a s. refl;
  listens = λ fd n s. refl;
  sets = λ fd o s. refl;
}
