-- ===== src/Network/Loop.antt =====
-- src/network/eventloop.cc and src/network/acceptor.hpp: `EventLoop::loop` and `Acceptor::accept`.
pub mod Accepted
use rproxy.Base.{ℕ, Option, none, some, List, [], ◌∷◌, ◌++◌, Result, ok, err, runtime_error, ◌>>=◌}
use rproxy.Network.Demultiplex.{Effect}
use rproxy.Network.Group.{Group, register_fd}

-- `accept()`, for what the kernel gave, `none` for -1.
pub accept : Option ℕ → Result ℕ
accept none = err runtime_error
accept (some fd) = ok fd

-- `loop`, for what the kernel gives until `stop_` is set: an exception of `accept` ends the round.
-- What it asks of the demultiplexers.
pub loop : List (Option ℕ) → Group → Result (List Effect)
loop [] g = ok []
loop (answer ∷ rest) g = elim (accept answer) [
  | err e ↦ loop rest g
  | ok fd ↦ (do (g', added) ← register_fd fd g; effects ← loop rest g'; ok (added ++ effects))
]
