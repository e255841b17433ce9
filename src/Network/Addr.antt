-- ===== src/Network/Addr.antt =====
-- src/network/stream_socket.hpp and stream_socket.cc: `InetAddr`. Text is a list of character codes.
pub mod Injective
mod Tests
use rproxy.Base.{
  ℕ, zero, suc, ◌+◌, ◌/◌, ◌%◌, Bool, ◌&&◌, List, [], ◌∷◌, ◌++◌, ltb, ◌==◌, if◌then◌else◌,
}
use rproxy.Base.Eq.{list_beq}

pub record InetAddr : Type 0 where
  pub ip : List ℕ
  pub port : ℕ

-- `operator==`
unfoldable pub equal : InetAddr → InetAddr → Bool
equal a b = list_beq b.ip a.ip && b.port == a.port

-- `c_str()` as `append` reads it: up to the first zero.
pub c_str : List ℕ → List ℕ
c_str [] = []
c_str (x ∷ xs) = let rest = c_str xs in if x == 0 then [] else x ∷ rest

-- `std::to_string` of a number with at most as many digits as the fuel says.
unfoldable pub digits : ℕ → ℕ → List ℕ
digits zero n = []
digits (suc f) n =
    let high = digits f (n / 10) in if ltb n 10 then (48 + n) ∷ [] else high ++ ((48 + n % 10) ∷ [])

-- A `uint16_t` has at most five digits.
unfoldable pub port_text : InetAddr → List ℕ
unfolding digits
port_text a = digits 5 a.port

-- `toString()`: "[ip:port]"
unfoldable pub to_string : InetAddr → List ℕ
unfolding port_text c_str
to_string a = b'[' ∷ (c_str a.ip ++ (b':' ∷ (c_str (port_text a) ++ (b']' ∷ []))))
