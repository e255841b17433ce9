-- ===== src/Proxy/Packet/Attach.antt =====
-- The address of a client in its packet (src/proxy/proxy_server.cc, where MSG_ATTACH is defined).
use rproxy.Base.{
  ℕ, zero, suc, ◌≤◌, ◌<◌, ◌≡◌, refl, List, [], ◌∷◌, ◌++◌, length, length-append, drop, ltb,
  Bool-cases, inl, inr, arith, ok, err, undefined,
}
use rproxy.Network.Addr.{InetAddr, digits, port_text}
use rproxy.Proxy.Packet.{Packet, overwrite, attach, max_ip_size, max_port_size}

pub overwrite_fits :
    (xs old : List ℕ) → length xs ≤ length old → overwrite xs old ≡ ok (xs ++ drop (length xs) old)
unfolding overwrite
overwrite_fits [] old h = refl
overwrite_fits (x ∷ xs) [] h = absurd (omega arith)
overwrite_fits (x ∷ xs) (o ∷ old) h = rw (overwrite_fits xs old (omega arith)) refl

pub overwrite_spills : (xs old : List ℕ) → length old < length xs → overwrite xs old ≡ err undefined
unfolding overwrite
overwrite_spills [] old h = absurd (omega arith)
overwrite_spills (x ∷ xs) [] h = refl
overwrite_spills (x ∷ xs) (o ∷ old) h = rw (overwrite_spills xs old (omega arith)) refl

length-digits : (f n : ℕ) → length (digits f n) ≤ f
unfolding digits
length-digits zero n = omega arith
length-digits (suc f) n = elim (Bool-cases (ltb n 10)) [
  | inl one ↦ rw one (omega arith)
  | inr more ↦ rw more (omega (arith, length-append {0} (digits f _) (_ ∷ []), length-digits f _))
]

length-port_text : (a : InetAddr) → length (port_text a) ≤ 5
unfolding port_text
length-port_text a = length-digits 5 a.port

-- The packet's arrays have the sizes that they are declared with.
abbrev pub IsPacket : Packet → Type 0
IsPacket p = (length p.ip ≡ max_ip_size) × (length p.port ≡ max_port_size)

-- What becomes of the copies of an address into a packet.
abbrev pub Attaches : InetAddr → Packet → Type 0
Attaches a p =
    (length a.ip ≤ max_ip_size
      → attach a p
        ≡ ok (record p {
          ip = a.ip ++ drop (length a.ip) p.ip;
          port = port_text a ++ drop (length (port_text a)) p.port;
        }))
    × (max_ip_size < length a.ip → attach a p ≡ err undefined)

-- An address whose text has at most ten characters enters a packet, and so does its port, each over
-- the front of its array; a longer text is written behind the array, which is not defined.
pub attach-Attaches : (a : InetAddr) (p : Packet) → IsPacket p → Attaches a p
unfolding attach
attach-Attaches a p size = (
  (λ h.
      rw
        (
          overwrite_fits a.ip p.ip (omega (arith, size.0)),
          overwrite_fits (port_text a) p.port (omega (arith, size.1, length-port_text a)),
        )
        refl),
  (λ h. rw (overwrite_spills a.ip p.ip (omega (arith, size.0))) refl),
)
