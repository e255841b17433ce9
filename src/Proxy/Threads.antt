-- ===== src/Proxy/Threads.antt =====
-- `zeroCopy` of src/proxy/proxy_server.cc, called by several threads at once: those of the loops of
-- the proxy server and those that pass clients on share the one `pipe_`. Each `splice` is one step;
-- the steps of the threads come in any order.
pub mod Steps
pub mod Owed
pub mod Solo
pub mod Flow
pub mod Returns
pub mod Mix
mod Tests
use rproxy.Base.{
  ℕ, zero, suc, ◌+◌, ◌-◌, Option, none, some, List, [], ◌∷◌, ◌++◌, length, take, drop, get_elem?,
  put,
}
use rproxy.Proxy.Server.{Kernel}

-- Where a call of `zeroCopy(in_fd, out_fd)` is; `len` and `total` are its variables, and `returned`
-- holds its result, `none` for -1.
pub data Place : Type 0 where
  receiving : (in_fd out_fd : ℕ) → Place
  sending : (len total out_fd : ℕ) → Place
  returned : Option ℕ → Place

-- `received` is what went into the pipe so far, and `delivered` what left it, each time with the
-- descriptor that it went to.
pub record Shared (S : Type 0) : Type 0 where
  pub kernel : S
  pub pipe : List ℕ
  pub received : List ℕ
  pub delivered : List (ℕ × List ℕ)
  pub threads : List Place

-- The step of thread `i` that is at the place.
unfoldable pub step_at : {S : Type 0} → Kernel S → ℕ → Place → Shared S → Shared S
step_at k i (receiving in_fd out_fd) g =
    let (got, s) = k.splice_in in_fd g.kernel in
    elim got [
      | none ↦ record g { kernel = s; threads = put i (returned none) g.threads }
      | some bytes ↦ record g {
        kernel = s;
        pipe = g.pipe ++ bytes;
        received = g.received ++ bytes;
        threads = put i (sending (length bytes) 0 out_fd) g.threads;
      }
    ]
step_at k i (sending zero total out_fd) g = record g {
  threads = put i (returned (some total)) g.threads;
}
step_at k i (sending (suc len) total out_fd) g =
    let (slen, s) = k.splice_out out_fd (take (suc len) g.pipe) g.kernel in
    elim slen [
      | none ↦ record g { kernel = s; threads = put i (returned (some total)) g.threads }
      | some n ↦ record g {
        kernel = s;
        pipe = drop n g.pipe;
        delivered = g.delivered ++ ((out_fd, take n g.pipe) ∷ []);
        threads = put i (sending (suc len - n) (total + n) out_fd) g.threads;
      }
    ]
step_at k i (returned total) g = g

unfoldable pub step : {S : Type 0} → Kernel S → ℕ → Shared S → Shared S
step k i g = elim (get_elem? g.threads i) [ none ↦ g | some p ↦ step_at k i p g ]

-- The steps of the threads, in this order.
unfoldable pub run : {S : Type 0} → Kernel S → List ℕ → Shared S → Shared S
run k [] g = g
run k (i ∷ is) g = run k is (step k i g)
