-- ===== src/Proxy/Packet/Loop.antt =====
-- The loop of `forward` in src/proxy/proxy_server.cc, as it is built with MSG_ATTACH.
use rproxy.Base.{
  ℕ, zero, suc, ◌+◌, ◌-◌, ◌≤◌, ◌<◌, ◌≡◌, ◌⊎◌, refl, ap, ap₂, sym, ◌∙◌, true, false, none, some,
  List, [], ◌++◌, length, length-take, length-drop, take, drop, take-append-drop, drop-drop,
  drop-take, take-append_right, ◌==◌, Bool-cases, Option-cases, inl, inr, arith, Result, ok, ◌>>=◌,
}
use mathlib.Core.Path.{subst}
use rproxy.Proxy.Packet.{Packet, Stream, Sent, max_packet_size, unsent, taken_first, send_loop}

-- `read` gives no more bytes than the packet takes; `send` takes no more than it is given, and at
-- least one where it is given any.
pub record StreamLaws {S : Type 0} (k : Stream S) : Type 0 where
  pub read_fits :
      (fd : ℕ) (s : S) (bytes : List ℕ)
      → (k.read fd max_packet_size s).0 ≡ some bytes
      → length bytes ≤ max_packet_size
  pub send_fits :
      (fd n : ℕ) (bytes : List ℕ) (s : S) → (k.send fd bytes s).0 ≡ some n → n ≤ length bytes
  pub send_moves :
      (fd n : ℕ) (bytes : List ℕ) (s : S)
      → (k.send fd bytes s).0 ≡ some n
      → 0 < length bytes
      → 0 < n

module _ {S : Type 0} (k : Stream S) where
  -- The packet's bytes from `total` on, `left` of them, are `bytes`.
  abbrev pub Holds : Packet → ℕ → List ℕ → Type 0
  Holds p total bytes = (unsent k p total ≡ bytes) × (p.length_ ≡ total + length bytes)

  -- All of the bytes were taken, or the kernel refused what is left of them.
  abbrev pub Settled : ℕ → ℕ → List ℕ → Type 0
  Settled out n bytes = (n ≡ length bytes) ⊎ ((s : S) × ((k.send out (drop n bytes) s).0 ≡ none))

  -- The loop ends, and the bytes taken are the first ones.
  abbrev pub Takes : ℕ → ℕ → List ℕ → Result (Sent S) → Type 0
  Takes out total bytes r =
      (n : ℕ) × (s : S) × (r ≡ ok (total + n, take n bytes, s))
      × (n ≤ length bytes)
      × Settled out n bytes

  Settled-next :
      (out n m : ℕ) (bytes : List ℕ)
      → n ≤ length bytes
      → Settled out m (drop n bytes)
      → Settled out (n + m) bytes
  Settled-next out n m bytes small (inl e) = inl (omega (arith, length-drop {0} n bytes))
  Settled-next out n m bytes small (inr (s, e)) =
      inr (s, subst (λ b. (k.send out b s).0 ≡ none) (drop-drop n m (n + m) bytes refl) e)

-- A round of the loop.
module _ {S : Type 0} (k : Stream S) where
  send_loop_failed :
      (fuel out total : ℕ) (p : Packet) (s : S)
      → (k.send out (unsent k p total) s).0 ≡ none
      → send_loop k (suc fuel) out total p s ≡ ok (total, [], (k.send out (unsent k p total) s).1)
  unfolding send_loop
  send_loop_failed fuel out total p s failed = rw (failed, send_loop) refl

  send_loop_ends :
      (fuel out total n : ℕ) (p : Packet) (s : S)
      → (k.send out (unsent k p total) s).0 ≡ some n
      → (total + n == p.length_) ≡ true
      → send_loop k (suc fuel) out total p s
        ≡ ok (total + n, take n (unsent k p total), (k.send out (unsent k p total) s).1)
  unfolding send_loop
  send_loop_ends fuel out total n p s took done = rw (took, send_loop, done) refl

  send_loop_goes_on :
      (fuel out total n : ℕ) (p : Packet) (s : S)
      → (k.send out (unsent k p total) s).0 ≡ some n
      → (total + n == p.length_) ≡ false
      → send_loop k (suc fuel) out total p s ≡ (
          send_loop k fuel out (total + n) p (k.send out (unsent k p total) s).1 >>= λ r.
          ok (taken_first (take n (unsent k p total)) r))
  unfolding send_loop
  send_loop_goes_on fuel out total n p s took more = rw (took, send_loop, more) refl

take-more :
    (n m : ℕ) (bytes : List ℕ)
    → n ≤ length bytes
    → take n bytes ++ take m (drop n bytes) ≡ take (n + m) bytes
take-more n m bytes small =
    sym (
      take-append_right (n + m) m (take n bytes) (drop n bytes)
        (omega (arith, length-take {0} n bytes)))
    ∙ ap (take (n + m)) (take-append-drop n bytes)

module _ {S : Type 0} (k : Stream S) (laws : StreamLaws k) where
  Holds-next :
      (p : Packet) (total n : ℕ) (bytes : List ℕ)
      → Holds k p total bytes
      → n ≤ length bytes
      → Holds k p (total + n) (drop n bytes)
  unfolding unsent
  Holds-next p total n bytes h small = (
    ap (take (p.length_ - (total + n))) (sym (drop-drop total n (total + n) p.segment refl))
        ∙ sym (
            drop-take n (p.length_ - total) (p.length_ - (total + n)) (drop total p.segment)
              (omega (arith, h.1)))
        ∙ ap (drop n) h.0,
    omega (arith, h.1, length-drop {0} n bytes),
  )

  pub send_loop-Takes :
      (fuel out total : ℕ) (p : Packet) (bytes : List ℕ) (s : S)
      → Holds k p total bytes
      → length bytes < fuel
      → Takes k out total bytes (send_loop k fuel out total p s)
  send_loop-Takes zero out total p bytes s h f = absurd (omega arith)
  send_loop-Takes (suc fuel) out total p bytes s h f =
      let answer = k.send out (unsent k p total) s in
      elim (Option-cases answer.0) [
        | inl failed ↦ (
          0,
          answer.1,
          send_loop_failed k fuel out total p s failed
              ∙ ap (λ t. ok (t, [], answer.1)) (omega arith),
          omega arith,
          inr (s, subst (λ b. (k.send out b s).0 ≡ none) h.0 failed),
        )
        | inr (n, took) ↦
            let small =
              subst (λ b. n ≤ length b) h.0 (laws.send_fits out n (unsent k p total) s took) in
            elim (Bool-cases (total + n == p.length_)) [
              | inl done ↦ (
                n,
                answer.1,
                send_loop_ends k fuel out total n p s took done
                    ∙ ap (λ b. ok (total + n, take n b, answer.1)) h.0,
                small,
                inl (ground (arith, done, h.1)),
              )
              | inr more ↦
                  let moved =
                    subst (λ b. 0 < length b → 0 < n) h.0
                      (laws.send_moves out n (unsent k p total) s took) in
                  let (m, s', run, fits, settled) =
                    send_loop-Takes fuel out (total + n) p (drop n bytes) answer.1
                      (Holds-next p total n bytes h small)
                      (ground (arith, more, moved, h.1, length-drop {0} n bytes, small)) in
                  (
                    n + m,
                    s',
                    send_loop_goes_on k fuel out total n p s took more
                        ∙ ap (λ x. x >>= λ r. ok (taken_first (take n (unsent k p total)) r)) run
                        ∙ ap (λ b. ok (total + n + m, take n b ++ take m (drop n bytes), s')) h.0
                        ∙ ap₂ (λ t b. ok (t, b, s')) (omega arith) (take-more n m bytes small),
                    omega (arith, length-drop {0} n bytes),
                    Settled-next k out n m bytes small settled,
                  )
            ]
      ]
