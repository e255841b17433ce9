-- ===== src/Proxy/Threads/Tests.antt =====
-- Calls of `zeroCopy` (src/proxy/proxy_server.cc) on one pipe, at concrete inputs.
use rproxy.Base.{ℕ, zero, ◌≡◌, refl, some, List, [], ◌∷◌, length, arith, ok, suc, ◌≤◌}
use rproxy.Proxy.Server.{Kernel}
use rproxy.Proxy.Server.Slow.{home, slow, slow-Moves}
use rproxy.Proxy.Threads.{receiving, sending, returned, Shared, run}
use rproxy.Proxy.Threads.Flow.{Balances, Counts, sent_by, run-Balances}
use rproxy.Proxy.Threads.Owed.{Covers}
use rproxy.Proxy.Threads.Returns.{HasReturned, run-Returns}
use rproxy.Proxy.Threads.Mix.{two_calls, run_mixed}

-- Three calls: one begins, one sends and one is done.
abbrev busy : Shared ℕ
busy = record {
  kernel = 8;
  pipe = 4 ∷ 5 ∷ [];
  received = 3 ∷ 4 ∷ 5 ∷ [];
  delivered = (9, 3 ∷ []) ∷ [];
  threads = receiving 7 5 ∷ sending 2 1 9 ∷ returned (some 0) ∷ [];
}

abbrev turns_taken : List ℕ
turns_taken = 0 ∷ 1 ∷ 0 ∷ 1 ∷ 2 ∷ 0 ∷ 1 ∷ []

run-Balances_example :
    Balances (run slow turns_taken busy)
    × Counts slow (run slow turns_taken busy)
    × Covers (run slow turns_taken busy)
run-Balances_example = run-Balances slow slow-Moves turns_taken busy (omega arith) refl refl

run-Returns_example :
    HasReturned 1 1 (sent_by slow 1 turns_taken busy) (run slow turns_taken busy)
    × (sent_by slow 1 turns_taken busy ≤ 2)
run-Returns_example =
    run-Returns slow slow-Moves turns_taken 1 2 1 9 busy (omega arith) refl (omega arith)

-- A kernel that moves all it may; client 7 has sent 1, 2, and any other 3.
abbrev swift : Kernel ℕ
swift = record {
  splice_in = λ fd s. (elim s [ zero ↦ some (1 ∷ 2 ∷ []) | suc n ↦ some (3 ∷ []) ], suc s);
  splice_out = λ out bytes s. (some (length bytes), s);
  connect = λ addr s. ok (s, suc s);
  close = λ fd s. s;
  peer = λ fd s. home;
}

run_mixed_example :
    (run swift (0 ∷ 1 ∷ 1 ∷ 0 ∷ []) (two_calls (7, 5) (8, 6) 0)).delivered
    ≡ (6, 1 ∷ []) ∷ (5, 2 ∷ 3 ∷ []) ∷ []
run_mixed_example =
    run_mixed swift (λ out bytes s. refl) 7 5 8 6 (1 ∷ 2 ∷ []) (3 ∷ []) 0 refl refl (omega arith)
      (omega arith)
