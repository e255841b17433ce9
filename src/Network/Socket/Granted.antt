-- ===== src/Network/Socket/Granted.antt =====
-- The calls of src/network/stream_socket.cc over a kernel that refuses none of them.
use rproxy.Base.{ℕ, true, ◌≡◌, refl, some, List, ok}
use rproxy.Network.Socket.{
  Calls, SockAddr, StreamSocket, bind_target, bind_addr, open_socket, listen, reuse_addr_port,
}

pub record Grants {S : Type 0} (k : Calls S) : Type 0 where
  pub gives : (s : S) → (fd : ℕ) × ((k.socket s).0 ≡ some fd)
  pub binds : (fd : ℕ) (a : SockAddr) (s : S) → (k.bind fd a s).0 ≡ true
  pub listens : (fd n : ℕ) (s : S) → (k.listen fd n s).0 ≡ true
  pub sets : (fd o : ℕ) (s : S) → (k.setsockopt fd o s).0 ≡ true

module _ {S : Type 0} (k : Calls S) (grants : Grants k) where
  pub open_socket_granted :
      (ip port : List ℕ) (s : S)
      → (fd : ℕ) × (s' : S) × (open_socket k ip port s
          ≡ ok (record { sockfd = fd; ip = ip; port = port }, s'))
  unfolding open_socket bind_addr
  open_socket_granted ip port s =
      let (fd, e) = grants.gives s in
      let s₁ = (k.socket s).1 in
      (
        fd,
        (k.bind fd (bind_target k ip port) s₁).1,
        rw (e, open_socket, grants.binds fd (bind_target k ip port) s₁) refl,
      )

  pub listen_granted : (fd : ℕ) (s : S) → (s' : S) × (listen k fd s ≡ ok s')
  unfolding listen
  listen_granted fd s = ((k.listen fd 50 s).1, rw (grants.listens fd 50 s) refl)

  pub reuse_granted : (sock : StreamSocket) (s : S) → (s' : S) × (reuse_addr_port k sock s ≡ ok s')
  unfolding reuse_addr_port
  reuse_granted sock s =
      let s₁ = (k.setsockopt sock.sockfd 2 s).1 in
      (
        (k.setsockopt sock.sockfd 15 s₁).1,
        rw (grants.sets sock.sockfd 2 s, grants.sets sock.sockfd 15 s₁) refl,
      )
