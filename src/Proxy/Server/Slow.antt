-- ===== src/Proxy/Server/Slow.antt =====
-- A kernel at which the laws of the proxy server hold, and a server with one client, for the tests of
-- src/proxy/proxy_server.cc.
use rproxy.Base.{ℕ, suc, refl, Bool, false, [], ◌∷◌, some, min, length, arith, ltb, ok, ◌≤◌}
use rproxy.Base.Eq.{nat_eq}
use rproxy.Base.Maps.{find}
use rproxy.Network.Addr.{InetAddr}
use rproxy.Network.Demultiplex.{Demultiplex}
use rproxy.Network.Group.{Group}
use rproxy.Proxy.Server.{ProxyServer, Kernel}
use rproxy.Proxy.Server.Pipe.{Moves}
use rproxy.Proxy.Server.Pairs.{KernelLaws, IsValid}

abbrev pub home : InetAddr
home = record { ip = 49 ∷ []; port = 80 }

-- A kernel that has given the descriptors below its state and gives each once. A socket always has two
-- bytes, and one leaves the pipe at a time.
abbrev pub slow : Kernel ℕ
slow = record {
  splice_in = λ fd s. (some (1 ∷ 2 ∷ []), s);
  splice_out = λ out bytes s. (some (min 1 (length bytes)), s);
  connect = λ addr s. ok (s, suc s);
  close = λ fd s. s;
  peer = λ fd s. home;
}

abbrev pub given : ℕ → ℕ → Bool
given fd s = ltb fd s

pub slow-KernelLaws : KernelLaws slow given
slow-KernelLaws = record {
  connect-new = λ addr s s' fd e. ground (arith, e);
  connect-keeps = λ addr s s' fd j e h. ground (arith, e);
  connect-fails = λ addr s e h. absurd cc;
  splice_in-keeps = λ fd j s. refl;
  splice_out-keeps = λ fd j bytes s. refl;
  close-keeps = λ fd j s h. refl;
}

pub slow-Moves : Moves slow
slow-Moves out bytes s n h e = ground (arith, e)

abbrev pub home_loop : Group
home_loop =
    let d : Demultiplex = record { id = 1; dmpfd = 3; notify = false } in
    record { dmpes = d ∷ []; iter = d ∷ [] }

-- Client 7 has the backend 5; client 6 has none.
abbrev pub serving : ProxyServer
serving = record {
  sock_map = (5, 7) ∷ [];
  reversed_map = (7, 5) ∷ [];
  pipe = [];
  group = home_loop;
  center = record { publishers = []; subscribers = []; traffic = [] };
  effects = [];
  stopped = false;
}

pub serving-IsValid : (s : ℕ) → 8 ≤ s → IsValid given serving s
unfolding find
serving-IsValid s h = record {
  paired = record { forth = λ b c e. ground (arith, e); back = λ c b e. ground (arith, e) };
  opened = λ b c e. ground (arith, e);
  turn = (0, record { inside = omega arith; place = refl });
}
