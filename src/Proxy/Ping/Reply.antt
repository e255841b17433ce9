-- ===== src/Proxy/Ping/Reply.antt =====
-- What `ping` of src/proxy/ping.hpp answers.
use rproxy.Base.{
  ℕ, zero, suc, ◌*◌, ◌%◌, ◌≤◌, ◌<◌, true, ◌≡◌, refl, Option, some, List, [], ◌∷◌, ◌++◌, arith,
  lt→ltb, length, get_elem?, replicate, drop, ok,
}
use rproxy.Proxy.Packet.Attach.{overwrite_fits}
use rproxy.Proxy.Ping.{
  RawCalls, ping, ping_target, echo_request, read_reply, reply_type, buffer_size,
}

get_elem?-replicate : (n i a : ℕ) → i < n → get_elem? (replicate n a) i ≡ some a
get_elem?-replicate zero i a h = absurd (omega arith)
get_elem?-replicate (suc n) zero a h = refl
get_elem?-replicate (suc n) (suc i) a h = get_elem?-replicate n i a (omega arith)

-- Past the bytes written, the array has what it had.
get_elem?-written :
    (xs : List ℕ) (n i a : ℕ)
    → length xs ≤ i
    → i < n
    → get_elem? (xs ++ drop (length xs) (replicate n a)) i ≡ some a
get_elem?-written [] n i a h small = get_elem?-replicate n i a small
get_elem?-written (x ∷ xs) zero i a h small = absurd (omega arith)
get_elem?-written (x ∷ xs) (suc n) zero a h small = absurd (omega arith)
get_elem?-written (x ∷ xs) (suc n) (suc i) a h small =
    get_elem?-written xs n i a (omega arith) (omega arith)

-- A reply that ends before the byte where its type is looked for.
abbrev pub IsShort : List ℕ → Type 0
IsShort [] = ⊥
IsShort (b ∷ bs) = suc (length bs) ≤ b % 16 * 4 * 8

reply_type_lem :
    (b a : ℕ) (xs : List ℕ)
    → get_elem? (b ∷ xs) (b % 16 * 4 * 8) ≡ some a
    → reply_type (b ∷ xs) ≡ ok a
unfolding reply_type
reply_type_lem b a xs e = ground (arith, e)

read_reply_short : (bytes : List ℕ) → IsShort bytes → read_reply (some bytes) ≡ ok true
unfolding read_reply
read_reply_short [] short = absurd short
read_reply_short (b ∷ bs) short =
    let old : List ℕ = replicate buffer_size 0 in
    let fits : length (b ∷ bs) ≤ length old = omega arith in
    rw
      (
        overwrite_fits (b ∷ bs) old fits,
        reply_type_lem b 0 (bs ++ drop (length (b ∷ bs)) old)
            (get_elem?-written (b ∷ bs) buffer_size (b % 16 * 4 * 8) 0 short (omega arith)),
      )
      refl

-- What `sendto` answers, and then `recv`.
abbrev pub sent_to : {S : Type 0} → RawCalls S → List ℕ → ℕ → S → Option ℕ × S
sent_to k host fd s = k.sendto fd echo_request (ping_target k host) (k.socket s).1

abbrev pub answer_to : {S : Type 0} → RawCalls S → List ℕ → ℕ → S → Option (List ℕ) × S
answer_to k host fd s = k.recv fd buffer_size (sent_to k host fd s).1

-- Where the request is sent and a reply comes that ends before the byte that `ping` takes for its
-- type, the answer of `ping` is that the host is alive, whatever the reply says.
pub ping-Blind :
    {S : Type 0} (k : RawCalls S) (host : List ℕ) (s : S) (fd n : ℕ) (bytes : List ℕ)
    → (k.socket s).0 ≡ some fd
    → (sent_to k host fd s).0 ≡ some (suc n)
    → (answer_to k host fd s).0 ≡ some bytes
    → IsShort bytes
    → ping k host s ≡ ok (true, (answer_to k host fd s).1)
unfolding ping
ping-Blind k host s fd n bytes open_fd out answered short =
    rw (open_fd, ping, out, lt→ltb 0 (suc n) (omega arith), answered, read_reply_short bytes short)
      refl
