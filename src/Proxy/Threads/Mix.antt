-- ===== src/Proxy/Threads/Mix.antt =====
-- Two calls of `zeroCopy` (src/proxy/proxy_server.cc) at once.
use rproxy.Base.{
  ℕ, zero, suc, ◌+◌, ◌-◌, ◌<◌, ◌≡◌, refl, ap, ◌∙◌, some, List, [], ◌∷◌, ◌++◌, length, take, put,
  ◌≤◌, drop, length-append, length-take, length-drop, take_all, arith,
}
use rproxy.Proxy.Server.{Kernel}
use rproxy.Proxy.Threads.{receiving, sending, Shared, step_at, step, run}

-- A `splice` from the pipe that moves all it may.
abbrev pub TakesAll : {S : Type 0} → Kernel S → Type 0
TakesAll {S} k =
    (out : ℕ) (bytes : List ℕ) (s : S) → (k.splice_out out bytes s).0 ≡ some (length bytes)

-- Two calls that begin, on an empty pipe
abbrev pub two_calls : {S : Type 0} → (ℕ × ℕ) → (ℕ × ℕ) → S → Shared S
two_calls (in₁, out₁) (in₂, out₂) s = record {
  kernel = s;
  pipe = [];
  received = [];
  delivered = [];
  threads = receiving in₁ out₁ ∷ receiving in₂ out₂ ∷ [];
}

module _ {S : Type 0} (k : Kernel S) (takes_all : TakesAll k) where
  -- A step that sends.
  sends :
      (i len total out : ℕ) (g : Shared S)
      → 0 < len
      → len ≤ length g.pipe
      → step_at k i (sending len total out) g ≡ record g {
        kernel = (k.splice_out out (take len g.pipe) g.kernel).1;
        pipe = drop len g.pipe;
        delivered = g.delivered ++ ((out, take len g.pipe) ∷ []);
        threads = put i (sending 0 (total + len) out) g.threads;
      }
  unfolding step_at
  sends i zero total out g h held = absurd (omega arith)
  sends i (suc len) total out g h held =
      rw (step_at, takes_all out (take (suc len) g.pipe) g.kernel, whole, left) refl
    where
      whole : length (take (suc len) g.pipe) ≡ suc len
      whole = omega (arith, length-take {0} (suc len) g.pipe)

      left : suc len - suc len ≡ 0
      left = omega arith

  receives :
      (i in_fd out_fd : ℕ) (bytes : List ℕ) (g : Shared S)
      → (k.splice_in in_fd g.kernel).0 ≡ some bytes
      → step_at k i (receiving in_fd out_fd) g ≡ record g {
        kernel = (k.splice_in in_fd g.kernel).1;
        pipe = g.pipe ++ bytes;
        received = g.received ++ bytes;
        threads = put i (sending (length bytes) 0 out_fd) g.threads;
      }
  unfolding step_at
  receives i in_fd out_fd bytes g got = rw (step_at, got) refl

  -- Two calls of `zeroCopy` that begin on an empty pipe, for a client with the bytes `xs` and for
  -- another with `ys`, neither empty, where `splice` from the pipe moves all that it may: where both
  -- have received before the second sends, and then the first, the socket of the second client gets
  -- the first `length ys` bytes of `xs ++ ys`, and the socket of the first client gets the rest. The
  -- bytes of one client reach the backend of the other.
  pub run_mixed :
      (in₁ out₁ in₂ out₂ : ℕ) (xs ys : List ℕ) (s : S)
      → (k.splice_in in₁ s).0 ≡ some xs
      → (k.splice_in in₂ (k.splice_in in₁ s).1).0 ≡ some ys
      → 0 < length xs
      → 0 < length ys
      → (run k (0 ∷ 1 ∷ 1 ∷ 0 ∷ []) (two_calls (in₁, out₁) (in₂, out₂) s)).delivered
        ≡ (out₂, take (length ys) (xs ++ ys)) ∷ (out₁, drop (length ys) (xs ++ ys)) ∷ []
  unfolding run step
  run_mixed in₁ out₁ in₂ out₂ xs ys s first second some_xs some_ys =
      let e₁ = receives 0 in₁ out₁ xs (two_calls (in₁, out₁) (in₂, out₂) s) first in
      let e₂ = receives 1 in₂ out₂ ys one_received second in
      let e₃ =
        sends 1 (length ys) 0 out₂ both_received some_ys (omega (arith, length-append {0} xs ys)) in
      let e₄ = sends 0 (length xs) 0 out₁ one_sent some_xs (omega (arith, left)) in
      ap (λ g. (step k 0 (step k 1 (step k 1 g))).delivered) e₁
      ∙ ap (λ g. (step k 0 (step k 1 g)).delivered) e₂
      ∙ ap (λ g. (step k 0 g).delivered) e₃
      ∙ ap (λ g. g.delivered) e₄
      ∙ ap (λ bytes. (out₂, take (length ys) (xs ++ ys)) ∷ (out₁, bytes) ∷ [])
          (take_all (length xs) (drop (length ys) (xs ++ ys)) (omega (arith, left)))
    where
      left : length (drop (length ys) (xs ++ ys)) ≡ length xs
      left = omega (arith, length-drop {0} (length ys) (xs ++ ys), length-append {0} xs ys)

      after_first : S
      after_first = (k.splice_in in₁ s).1

      after_second : S
      after_second = (k.splice_in in₂ after_first).1

      one_received : Shared S
      one_received = record {
        kernel = after_first;
        pipe = xs;
        received = xs;
        delivered = [];
        threads = sending (length xs) 0 out₁ ∷ receiving in₂ out₂ ∷ [];
      }

      both_received : Shared S
      both_received = record {
        kernel = after_second;
        pipe = xs ++ ys;
        received = xs ++ ys;
        delivered = [];
        threads = sending (length xs) 0 out₁ ∷ sending (length ys) 0 out₂ ∷ [];
      }

      one_sent : Shared S
      one_sent = record both_received {
        kernel = (k.splice_out out₂ (take (length ys) (xs ++ ys)) after_second).1;
        pipe = drop (length ys) (xs ++ ys);
        delivered = (out₂, take (length ys) (xs ++ ys)) ∷ [];
        threads = sending (length xs) 0 out₁ ∷ sending 0 (0 + length ys) out₂ ∷ [];
      }
