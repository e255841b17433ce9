-- ===== src/Proxy/Ping.antt =====
-- src/proxy/ping.hpp: `Ping`, over the system calls that it makes. A `short` of the buffer is a number
-- below 2^16. What is printed is left out.
pub mod Closes
pub mod Reply
mod Tests
use rproxy.Base.{
  ℕ, ◌+◌, ◌-◌, ◌*◌, ◌/◌, ◌%◌, ◌^◌, Bool, true, false, Option, none, some, List, [], ◌∷◌, add_size,
  ltb, ◌==◌, get_elem?, replicate, Result, ok, err, ◌>>=◌, ◌>>◌, require, runtime_error, undefined,
}
use rproxy.Network.Addr.{c_str}
use rproxy.Network.Socket.{SockAddr, af_inet, htons}
use rproxy.Proxy.Packet.{overwrite}

-- `while (bufsz > 1)`
pub sum_words : ℕ → List ℕ → ℕ
sum_words sum [] = sum
sum_words sum (w ∷ ws) = sum_words (add_size sum w) ws

-- `if (bufsz == 1)`
pub add_tail : ℕ → Option ℕ → ℕ
add_tail sum none = sum
add_tail sum (some byte) = add_size sum byte

-- `sum = (sum & 0xffff) + (sum >> 16);`
pub fold : ℕ → ℕ
fold sum = sum % 2 ^ 16 + sum / 2 ^ 16

-- The words of the buffer, and its last byte where their number is odd. `~sum` is cut to 16 bits.
pub checksum : List ℕ → Option ℕ → ℕ
checksum words tail =
    let sum = fold (fold (add_tail (sum_words 0xffff words) tail)) in 2 ^ 16 - 1 - sum % 2 ^ 16

-- The system calls, on a state of the kernel; `none` stands for -1.
pub record RawCalls (S : Type 0) : Type 0 where
  pub inet_addr : List ℕ → ℕ
  pub socket : S → Option ℕ × S
  pub sendto : ℕ → List ℕ → SockAddr → S → Option ℕ × S
  pub recv : ℕ → ℕ → S → Option (List ℕ) × S

-- The bytes of an echo request: its type, its code, the checksum, and no identity and sequence number.
pub echo_request : List ℕ
echo_request =
    let sum = checksum (8 ∷ 0 ∷ 0 ∷ 0 ∷ []) none in
    8 ∷ 0 ∷ sum % 256 ∷ sum / 256 ∷ 0 ∷ 0 ∷ 0 ∷ 0 ∷ []

abbrev pub buffer_size : ℕ
buffer_size = 1024

-- A byte of the buffer
abbrev pub byte_at : List ℕ → ℕ → Result ℕ
byte_at buf i = elim (get_elem? buf i) [ none ↦ err undefined | some b ↦ ok b ]

-- `icmphdr_ptr->type`: the pointer moves by `ihl * 4` headers, of 8 bytes each.
pub reply_type : List ℕ → Result ℕ
reply_type buf = do first ← byte_at buf 0; byte_at buf (first % 16 * 4 * 8)

-- -1 as no bytes
abbrev pub bytes_of : Option (List ℕ) → List ℕ
bytes_of none = []
bytes_of (some bytes) = bytes

abbrev pub is_filled : List ℕ → Bool
is_filled [] = false
is_filled (b ∷ bs) = true

-- What is made of the answer of `recv`.
pub read_reply : Option (List ℕ) → Result Bool
read_reply got = do
  require (is_filled (bytes_of got)) runtime_error
  buf ← overwrite (bytes_of got) (replicate buffer_size 0)
  type ← reply_type buf
  ok (type == 0)

module _ {S : Type 0} (k : RawCalls S) where
  -- The address that `ping` sends to.
  pub ping_target : List ℕ → SockAddr
  ping_target host = record {
    sin_family = af_inet;
    sin_addr = k.inet_addr (c_str host);
    sin_port = htons 5050;
  }

  -- `ping`: the socket stays open.
  pub ping : List ℕ → S → Result (Bool × S)
  ping host s =
      let (fd, s₁) = k.socket s in
      elim fd [
        | none ↦ err runtime_error
        | some sockfd ↦ (do
          let (sent, s₂) = k.sendto sockfd echo_request (ping_target host) s₁
          require (elim sent [ none ↦ false | some n ↦ ltb 0 n ]) runtime_error
          let (got, s₃) = k.recv sockfd buffer_size s₂
          alive ← read_reply got
          ok (alive, s₃))
      ]
