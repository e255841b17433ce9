-- ===== src/Network/Socket/Peer.antt =====
-- What `connectTo` of src/network/stream_socket.cc hands to the kernel, and when it fails.
use rproxy.Base.{
  ℕ, ◌^◌, ◌<◌, true, false, none, ◌⊎◌, ◌≡◌, refl, ap, ap₂, ◌∙◌, some, Result, ok, err,
  runtime_error, Bool-cases, Option-cases, inl, inr,
}
use rproxy.Network.Addr.{InetAddr}
use rproxy.Network.Addr.Injective.{Lacks, c_str_lem}
use rproxy.Network.Socket.{Calls, connect_target, addr_of, connect_to}
use rproxy.Network.Socket.Port.{ntohs-htons-atoi}

module _ {S : Type 0} (k : Calls S) where
  -- The address that `connectTo` hands to the kernel, read back as `getPeerAddr` reads the address of
  -- a connection, is the one it was given: for a port of 16 bits and a text of an address that
  -- `inet_addr` and `inet_ntoa` take to a number and back.
  pub addr_of-connect_target :
      (a : InetAddr)
      → a.port < 2 ^ 16
      → Lacks 0 a.ip
      → k.inet_ntoa (k.inet_addr a.ip) ≡ a.ip
      → addr_of k (connect_target k a) ≡ a
  unfolding addr_of connect_target
  addr_of-connect_target a small text back =
      ap₂ (λ ip port. record { ip = ip; port = port })
        (ap (λ t. k.inet_ntoa (k.inet_addr t)) (c_str_lem a.ip text) ∙ back)
        (ntohs-htons-atoi a small)

  -- A socket was made and the kernel connected it, or the call throws a runtime_error, where the kernel
  -- made no socket or did not connect the one that it made.
  abbrev pub Connects : InetAddr → S → Result (ℕ × S) → Type 0
  Connects a s (ok (fd, s')) =
      ((k.socket s).0 ≡ some fd)
      × ((k.connect fd (connect_target k a) (k.socket s).1).0 ≡ true)
      × (s' ≡ (k.connect fd (connect_target k a) (k.socket s).1).1)
  Connects a s (err e) =
      (e ≡ runtime_error)
      × (((k.socket s).0 ≡ none)
          ⊎ ((fd : ℕ) × ((k.socket s).0 ≡ some fd)
              × ((k.connect fd (connect_target k a) (k.socket s).1).0 ≡ false)))

  pub connect_to-Connects : (a : InetAddr) (s : S) → Connects a s (connect_to k a s)
  unfolding connect_to
  connect_to-Connects a s = elim (Option-cases (k.socket s).0) [
    | inl failed ↦ rw (failed, connect_to) (refl, inl failed)
    | inr (fd, made) ↦ elim (Bool-cases (k.connect fd (connect_target k a) (k.socket s).1).0) [
      | inl on ↦ rw (made, connect_to, on) (made, on, refl)
      | inr off ↦ rw (made, connect_to, off) (refl, inr (fd, made, off))
    ]
  ]
