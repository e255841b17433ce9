-- ===== src/Network/Socket.antt =====
-- `StreamSocket` of src/network/stream_socket.hpp and stream_socket.cc, over the system calls that it
-- makes. An assert that fails ends the program.
pub mod Port
pub mod Peer
pub mod Granted
pub mod Local
mod Tests
use Prim.Native.Nat.{bit_or}
use rproxy.Base.{
  ℕ, ◌+◌, ◌-◌, ◌*◌, ◌/◌, ◌%◌, ◌^◌, Bool, ◌&&◌, Option, none, some, List, [], ◌∷◌, leb,
  if◌then◌else◌, Result, ok, err, ◌>>=◌, ◌>>◌, require, runtime_error, assertion,
}
use rproxy.Network.Addr.{InetAddr, c_str, port_text}

-- `struct sockaddr_in`, with the port as it is stored, in network order.
pub record SockAddr : Type 0 where
  pub sin_family : ℕ
  pub sin_addr : ℕ
  pub sin_port : ℕ

abbrev pub af_inet : ℕ
af_inet = 2

-- `htons` and `ntohs` on a little-endian machine
abbrev pub htons : ℕ → ℕ
htons p = p % 256 * 256 + p / 256

abbrev pub ntohs : ℕ → ℕ
ntohs p = htons p

abbrev pub is_digit : ℕ → Bool
is_digit c = leb b'0' c && leb c b'9'

-- The digits at the front of a text
pub dec_from : ℕ → List ℕ → ℕ
dec_from acc [] = acc
dec_from acc (c ∷ cs) =
    let rest = dec_from (acc * 10 + (c - b'0')) cs in if is_digit c then rest else acc

-- `atoi` where it is given a text that begins with a digit, or 0; the result as the 16 bits that
-- `htons` takes. The ports of the program have no blanks and no sign.
pub atoi : List ℕ → ℕ
unfolding dec_from
atoi text = dec_from 0 text % 2 ^ 16

-- The system calls, on a state of the kernel; `none` and `false` stand for -1. `inet_aton` gives
-- `none` for a text that is no address.
pub record Calls (S : Type 0) : Type 0 where
  pub inet_addr : List ℕ → ℕ
  pub inet_aton : List ℕ → Option ℕ
  pub inet_ntoa : ℕ → List ℕ
  pub socket : S → Option ℕ × S
  pub bind : ℕ → SockAddr → S → Bool × S
  pub listen : ℕ → ℕ → S → Bool × S
  pub accept : ℕ → S → Option ℕ × Bool × S
  pub connect : ℕ → SockAddr → S → Bool × S
  pub setsockopt : ℕ → ℕ → S → Bool × S
  pub fcntl : ℕ → ℕ → S → ℕ × S
  pub getpeername : ℕ → S → SockAddr
  pub close : ℕ → S → S

-- `sockfd_`, `ip_` and `port_`
pub record StreamSocket : Type 0 where
  pub sockfd : ℕ
  pub ip : List ℕ
  pub port : List ℕ

module _ {S : Type 0} (k : Calls S) where
  -- The address that `bindAddr` makes: a text that is no address leaves the zeros of `memset`.
  pub bind_target : List ℕ → List ℕ → SockAddr
  unfolding atoi
  bind_target ip port = record {
    sin_family = af_inet;
    sin_addr = elim (k.inet_aton (c_str ip)) [ none ↦ 0 | some a ↦ a ];
    sin_port = htons (atoi (c_str port));
  }

  -- `bindAddr(sockfd, ip, port)`
  pub bind_addr : ℕ → List ℕ → List ℕ → S → Result S
  bind_addr sockfd ip port s = do
    let (bound, s') = k.bind sockfd (bind_target ip port) s
    require bound assertion
    ok s'

  -- `StreamSocket(ip, port)`
  pub open_socket : List ℕ → List ℕ → S → Result (StreamSocket × S)
  open_socket ip port s =
      let (fd, s') = k.socket s in
      elim fd [
        | none ↦ err assertion
        | some sockfd ↦ bind_addr sockfd ip port s' >>= λ s''.
            ok (record { sockfd = sockfd; ip = ip; port = port }, s'')
      ]

  -- `listen()` and `listen(fd, backlog)`, whose `backlog` is not used.
  pub listen : ℕ → S → Result S
  listen fd s = do let (done, s') = k.listen fd 50 s; require done assertion; ok s'

  -- `accept()`: the descriptor or -1, where the call would block by what `errno` says.
  pub accept : StreamSocket → S → Result (Option ℕ × S)
  accept sock s =
      let (fd, again, s') = k.accept sock.sockfd s in
      if again then ok (fd, s') else elim fd [ none ↦ err assertion | some n ↦ ok (some n, s') ]

  -- `reuseAddrPort`, with SO_REUSEADDR and SO_REUSEPORT.
  pub reuse_addr_port : StreamSocket → S → Result S
  reuse_addr_port sock s = do
    let (first, s₁) = k.setsockopt sock.sockfd 2 s
    require first assertion
    let (second, s₂) = k.setsockopt sock.sockfd 15 s₁
    require second assertion
    ok s₂

  -- The address that `connectTo` makes.
  pub connect_target : InetAddr → SockAddr
  unfolding atoi
  connect_target a = record {
    sin_family = af_inet;
    sin_addr = k.inet_addr (c_str a.ip);
    sin_port = htons (atoi (c_str (port_text a)));
  }

  -- `connectTo`
  pub connect_to : InetAddr → S → Result (ℕ × S)
  connect_to a s =
      let (fd, s') = k.socket s in
      elim fd [
        | none ↦ err runtime_error
        | some sock ↦ (do
          let (made, s'') = k.connect sock (connect_target a) s'
          require made runtime_error
          ok (sock, s''))
      ]

  -- `setNonBlocking`: the second call has the flags for its command, and no argument.
  pub set_non_blocking : ℕ → S → S
  set_non_blocking fd s = let (flag, s') = k.fcntl fd 3 s in (k.fcntl fd (bit_or flag 0x800) s').1

  -- What `getPeerAddr` makes of an address.
  pub addr_of : SockAddr → InetAddr
  addr_of a = record { ip = k.inet_ntoa a.sin_addr; port = ntohs a.sin_port }

  -- `getPeerAddr`
  pub get_peer_addr : ℕ → S → InetAddr
  get_peer_addr fd s = addr_of (k.getpeername fd s)
