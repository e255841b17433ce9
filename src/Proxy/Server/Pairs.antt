-- ===== src/Proxy/Server/Pairs.antt =====
-- The two maps of `ProxyServer` (src/proxy/proxy_server.cc) are inverse to each other.
use rproxy.Base.{
  ℕ, Bool, true, false, ◌≡◌, none, some, List, arith, ok, err, runtime_error, Failure,
}
use rproxy.Base.Eq.{nat_eq, same}
use rproxy.Base.Maps.{find, has_key, emplace, erase, find-emplace, find-erase}
use rproxy.Network.Addr.{InetAddr}
use rproxy.Network.Group.Turns.{IsAt}
use rproxy.Proxy.Server.{ProxyServer, Kernel}

-- What the proxy server relies on: a descriptor that `connect` gives was not open before and is now,
-- no other call but `close` closes one, and `close` closes no other; a connection that cannot be made
-- is reported by a runtime_error, as in src/network/stream_socket.cc.
pub record KernelLaws {S : Type 0} (k : Kernel S) (is_open : ℕ → S → Bool) : Type 0 where
  pub connect-new :
      (addr : InetAddr) (s s' : S) (fd : ℕ)
      → k.connect addr s ≡ ok (fd, s')
      → (is_open fd s ≡ false) × (is_open fd s' ≡ true)
  pub connect-keeps :
      (addr : InetAddr) (s s' : S) (fd j : ℕ)
      → k.connect addr s ≡ ok (fd, s')
      → is_open j s ≡ true
      → is_open j s' ≡ true
  pub connect-fails :
      (addr : InetAddr) (s : S) → (e : Failure) → k.connect addr s ≡ err e → e ≡ runtime_error
  pub splice_in-keeps : (fd j : ℕ) (s : S) → is_open j (k.splice_in fd s).1 ≡ is_open j s
  pub splice_out-keeps :
      (fd j : ℕ) (bytes : List ℕ) (s : S) → is_open j (k.splice_out fd bytes s).1 ≡ is_open j s
  pub close-keeps : (fd j : ℕ) (s : S) → same fd j ≡ false → is_open j (k.close fd s) ≡ is_open j s

-- Each backend's socket in the one map is the socket of its client in the other.
pub record IsPaired (sock_map reversed_map : List (ℕ × ℕ)) : Type 0 where
  pub forth : (b c : ℕ) → find b sock_map ≡ some c → find c reversed_map ≡ some b
  pub back : (c b : ℕ) → find c reversed_map ≡ some b → find b sock_map ≡ some c

pub record IsValid {S : Type 0} (is_open : ℕ → S → Bool) (p : ProxyServer) (s : S) : Type 0 where
  pub paired : IsPaired p.sock_map p.reversed_map
  pub opened : (b c : ℕ) → find b p.sock_map ≡ some c → is_open b s ≡ true
  pub turn : (i : ℕ) × IsAt i p.group

-- A new backend for a client that has none.
pub emplace-IsPaired :
    (b c : ℕ) (sock_map reversed_map : List (ℕ × ℕ))
    → find b sock_map ≡ none
    → find c reversed_map ≡ none
    → IsPaired sock_map reversed_map
    → IsPaired (emplace b c sock_map) (emplace c b reversed_map)
unfolding has_key
emplace-IsPaired b c m r new_b new_c v = record {
  forth = λ j i e. ground (
    arith,
    nat_eq.beq_iff b j,
    nat_eq.beq_iff c i,
    find-emplace b j c m,
    find-emplace c i b r,
    v.forth j i,
  );
  back = λ i j e. ground (
    arith,
    nat_eq.beq_iff b j,
    nat_eq.beq_iff c i,
    find-emplace b j c m,
    find-emplace c i b r,
    v.back i j,
  );
}

-- A backend leaves, and its client with it.
pub erase-IsPaired :
    (b c : ℕ) (sock_map reversed_map : List (ℕ × ℕ))
    → find b sock_map ≡ some c
    → IsPaired sock_map reversed_map
    → IsPaired (erase b sock_map) (erase c reversed_map)
erase-IsPaired b c m r known v = record {
  forth = λ j i e. ground (
    arith,
    nat_eq.beq_iff b j,
    nat_eq.beq_iff c i,
    find-erase b j m,
    find-erase c i r,
    v.forth j i,
    v.back i j,
    v.forth b c,
  );
  back = λ i j e. ground (
    arith,
    nat_eq.beq_iff b j,
    nat_eq.beq_iff c i,
    find-erase b j m,
    find-erase c i r,
    v.forth j i,
    v.back i j,
    v.forth b c,
  );
}
