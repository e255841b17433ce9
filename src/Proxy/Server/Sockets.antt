-- ===== src/Proxy/Server/Sockets.antt =====
-- The kernel that src/proxy/proxy_server.cc works with, by the calls of src/network/stream_socket.cc.
use rproxy.Base.{
  ℕ, Bool, true, false, ◌≡◌, ap, ◌∙◌, Option, some, List, ok, err, Failure, runtime_error,
}
use mathlib.Core.Path.{subst}
use rproxy.Base.Eq.{same, nat_eq}
use rproxy.Network.Addr.{InetAddr}
use rproxy.Network.Socket.{SockAddr, Calls, connect_to, connect_target, get_peer_addr}
use rproxy.Network.Socket.Peer.{Connects, connect_to-Connects}
use rproxy.Proxy.Server.{Kernel}
use rproxy.Proxy.Server.Pairs.{KernelLaws}

-- The two uses of `splice`
pub record Splices (S : Type 0) : Type 0 where
  pub into_pipe : ℕ → S → Option (List ℕ) × S
  pub out_of_pipe : ℕ → List ℕ → S → Option ℕ × S

-- `connectTo`, `close` and `getPeerAddr` as what the proxy server calls.
pub kernel_of : {S : Type 0} → Calls S → Splices S → Kernel S
kernel_of k sp = record {
  splice_in = sp.into_pipe;
  splice_out = sp.out_of_pipe;
  connect = λ addr s. connect_to k addr s;
  close = k.close;
  peer = λ fd s. get_peer_addr k fd s;
}

-- What the system calls do to the descriptors that are open: `socket` gives a new one, `close` closes
-- no other than its own, and the rest change none.
pub record CallLaws {S : Type 0} (k : Calls S) (sp : Splices S) (is_open : ℕ → S → Bool)
    : Type 0 where
  pub socket-new :
      (s : S) (fd : ℕ)
      → (k.socket s).0 ≡ some fd
      → (is_open fd s ≡ false) × (is_open fd (k.socket s).1 ≡ true)
  pub socket-keeps : (s : S) (j : ℕ) → is_open j s ≡ true → is_open j (k.socket s).1 ≡ true
  pub connect-keeps :
      (fd j : ℕ) (a : SockAddr) (s : S) → is_open j (k.connect fd a s).1 ≡ is_open j s
  pub into-keeps : (fd j : ℕ) (s : S) → is_open j (sp.into_pipe fd s).1 ≡ is_open j s
  pub out-keeps :
      (fd j : ℕ) (bytes : List ℕ) (s : S) → is_open j (sp.out_of_pipe fd bytes s).1 ≡ is_open j s
  pub close-keeps : (fd j : ℕ) (s : S) → same fd j ≡ false → is_open j (k.close fd s) ≡ is_open j s

module _ {S : Type 0} (k : Calls S) (sp : Splices S) (is_open : ℕ → S → Bool)
    (laws : CallLaws k sp is_open) where
  -- A connection that is made, by the calls that made it.
  connected_by :
      (addr : InetAddr) (s s' : S) (fd : ℕ)
      → connect_to k addr s ≡ ok (fd, s')
      → Connects k addr s (ok (fd, s'))
  connected_by addr s s' fd e = subst (Connects k addr s) e (connect_to-Connects k addr s)

  failed_by :
      (addr : InetAddr) (s : S) (e : Failure) → connect_to k addr s ≡ err e → e ≡ runtime_error
  failed_by addr s e f = (subst (Connects k addr s) f (connect_to-Connects k addr s)).0

  -- Where the system calls keep to their laws, `connectTo` and `close` of StreamSocket give the proxy
  -- server what it relies on: each connection has a descriptor that was not open before and is open
  -- after, the others stay open, and no other is closed. `connectTo` gives the descriptor of a socket
  -- that the kernel made and connected to the address, and otherwise throws a runtime_error, which it
  -- does only where the kernel made no socket or did not connect the one it made.
  pub kernel_of-KernelLaws :
      KernelLaws (kernel_of k sp) is_open
      × ((addr : InetAddr) (s : S) → Connects k addr s ((kernel_of k sp).connect addr s))
  unfolding kernel_of
  kernel_of-KernelLaws = (
    record {
      connect-new = λ addr s s' fd e.
          let (given, made, after) = connected_by addr s s' fd e in
          let (new, there) = laws.socket-new s fd given in
          (
            new,
            ap (is_open fd) after
                ∙ laws.connect-keeps fd fd (connect_target k addr) (k.socket s).1
                ∙ there,
          );
      connect-keeps = λ addr s s' fd j e h.
          let (given, made, after) = connected_by addr s s' fd e in
          ap (is_open j) after
          ∙ laws.connect-keeps fd j (connect_target k addr) (k.socket s).1
          ∙ laws.socket-keeps s j h;
      connect-fails = failed_by;
      splice_in-keeps = laws.into-keeps;
      splice_out-keeps = laws.out-keeps;
      close-keeps = laws.close-keeps;
    },
    λ addr s. connect_to-Connects k addr s,
  )
