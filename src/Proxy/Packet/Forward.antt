-- ===== src/Proxy/Packet/Forward.antt =====
-- `forward` of src/proxy/proxy_server.cc, as it is built with MSG_ATTACH.
use rproxy.Base.{
  ℕ, suc, ◌≤◌, ◌≡◌, refl, ap, ◌∙◌, Bool, true, false, Option, none, some, List, [], ◌++◌, length,
  length-replicate, take, drop, take-append_left, take_all, Bool-cases, Option-cases, inl, inr,
  arith, Result, ok, err, undefined,
}
use rproxy.Proxy.Packet.{Packet, Stream, max_packet_size, zeroed, unsent, forward}
use rproxy.Proxy.Packet.Attach.{overwrite_fits}
use rproxy.Proxy.Packet.Loop.{StreamLaws, Settled, send_loop-Takes}

module _ {S : Type 0} (k : Stream S) (laws : StreamLaws k) where
  -- By what was read: the answer, the packet, and the bytes sent.
  abbrev pub Forwards :
      ℕ → Option (List ℕ) → Bool → Result (Option ℕ × Packet × List ℕ × S) → Type 0
  Forwards out none true r = (s : S) × (r ≡ ok (none, zeroed, [], s))
  Forwards out none false r = r ≡ err undefined
  Forwards out (some bytes) again r =
      (n : ℕ) × (p : Packet) × (s : S) × (r ≡ ok (some n, p, take n bytes, s))
      × (n ≤ length bytes)
      × Settled k out n bytes
      × (p.ip ≡ zeroed.ip)
      × (p.port ≡ zeroed.port)
      × (p.length_ ≡ length bytes)

  -- `forward`, over sockets that keep to the laws: it comes to an end, having sent a first part of the
  -- bytes that it read, all of them unless the kernel refused the rest; it answers with their number,
  -- and the packet it leaves has neither the address nor the port that were in it. Where the read
  -- would block it answers -1, and after another error of the read it is not defined.
  pub forward-Forwards :
      (in_fd out_fd : ℕ) (p : Packet) (s : S)
      → let got = k.read in_fd max_packet_size s in
        Forwards out_fd got.0 got.1 (forward k in_fd out_fd p s)
  unfolding forward zeroed unsent
  forward-Forwards in_fd out_fd p s =
      let got = k.read in_fd max_packet_size s in
      elim (Option-cases got.0) [
        | inl failed ↦ elim (Bool-cases got.1) [
          | inl again ↦ rw (failed, again, forward) (got.2, refl)
          | inr other ↦ rw (failed, other, forward) refl
        ]
        | inr (bytes, read) ↦
            let zeros = zeroed.segment in
            let fits : length bytes ≤ length zeros = omega (
              arith,
              laws.read_fits in_fd s bytes read,
              length-replicate {A = ℕ} max_packet_size 0,
            ) in
            let packet = record zeroed {
              length_ = length bytes;
              segment = bytes ++ drop (length bytes) zeros;
            } in
            let (n, s', run, small, settled) =
              send_loop-Takes k laws (suc (length bytes)) out_fd 0 packet bytes got.2
                (
                  ap (λ j. take j packet.segment) (omega arith)
                      ∙ take-append_left (length bytes) bytes (drop (length bytes) zeros)
                          (omega arith)
                      ∙ take_all (length bytes) bytes (omega arith),
                  omega arith,
                )
                (omega arith) in
            rw (read, forward, overwrite_fits bytes zeros fits, run)
              (
                n,
                packet,
                s',
                ap (λ t. ok (some t, packet, take n bytes, s')) (omega arith),
                small,
                settled,
                refl,
                refl,
                refl,
              )
      ]
