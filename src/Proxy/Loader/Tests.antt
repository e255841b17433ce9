-- ===== src/Proxy/Loader/Tests.antt =====
-- `LoadBalancer` of src/proxy/loader.cc at concrete inputs.
use rproxy.Base.{
  ℕ, ◌+◌, ◌≡◌, ◌≢◌, refl, Bool, false, List, [], ◌∷◌, Option, none, arith, Result, ok, ℤ,
}
use rproxy.Base.Eq.{nat_eq, text_eq}
use rproxy.Base.Maps.{find, has_key, emplace, contains}
use rproxy.Network.Addr.{InetAddr, to_string}
use rproxy.Proxy.Loader.{
  LoadBalancer, new_balancer, add_backend, remove_backend, balancing, check_all_backend, check_each,
  check_backend, check_text, check_answer, connect_loop, write_loop, receive_loop,
}
use rproxy.Proxy.Loader.Rotation.{Distinct, Rotates, balancing-Rotates}
use rproxy.Proxy.Loader.Probe.{beside, probe}
use rproxy.Proxy.Loader.Health.{check_all_backend-keeps, check_after_removal}

abbrev first_addr : InetAddr
first_addr = record { ip = 49 ∷ []; port = 80 }

abbrev second_addr : InetAddr
second_addr = record { ip = 50 ∷ []; port = 80 }

abbrev first_key : List ℕ
first_key = 91 ∷ 49 ∷ 58 ∷ 56 ∷ 48 ∷ 93 ∷ []

abbrev second_key : List ℕ
second_key = 91 ∷ 50 ∷ 58 ∷ 56 ∷ 48 ∷ 93 ∷ []

abbrev two_backends : LoadBalancer
two_backends = record {
  backend = (first_key, first_addr) ∷ (second_key, second_addr) ∷ [];
  checked = (first_key, 8080) ∷ (second_key, 8080) ∷ [];
  sock_queue = [];
  sockes = [];
  text = 112 ∷ [];
  stopped = false;
}

abbrev batch : List ℕ
batch = 7 ∷ 4 ∷ 9 ∷ []

batch-Distinct : Distinct batch
unfolding contains
batch-Distinct = (refl, (refl, (refl, tt)))

balancing_three :
    balancing batch two_backends ≡ ok ((9, first_addr) ∷ (4, second_addr) ∷ (7, first_addr) ∷ [])
unfolding balancing emplace has_key find
balancing_three = refl

added_first :
    add_backend second_addr 8080 (add_backend first_addr 8080 new_balancer) ≡ record two_backends {
      backend = (second_key, second_addr) ∷ (first_key, first_addr) ∷ [];
      checked = (second_key, 8080) ∷ (first_key, 8080) ∷ [];
      text = [];
    }
unfolding add_backend new_balancer to_string emplace has_key find
added_first = refl

balancing-Rotates_example : Rotates two_backends.backend 0 batch (balancing batch two_backends)
balancing-Rotates_example = balancing-Rotates two_backends batch (omega arith) batch-Distinct

-- A network whose descriptors count up, that sends nothing and answers nothing.
abbrev deaf_connect : InetAddr → ℕ → Result (ℕ × ℕ)
deaf_connect addr s = ok (s + 3, s + 1)

abbrev deaf_write : ℤ → List ℕ → ℕ → Option ℕ × ℕ
deaf_write sock text s = (none, s)

abbrev deaf_receive : ℤ → List ℕ → ℕ → Bool × ℕ
deaf_receive sock text s = (false, s)

dead_backends_stay :
    check_all_backend deaf_connect deaf_write deaf_receive two_backends 0 ≡ ok (two_backends, 2)
unfolding check_all_backend check_each check_backend check_text check_answer connect_loop write_loop
    receive_loop find
dead_backends_stay = refl

check_all_backend-keeps_example :
    check_all_backend deaf_connect deaf_write deaf_receive two_backends 0
    ≡ beside deaf_connect deaf_write deaf_receive two_backends (
        probe deaf_connect deaf_write deaf_receive two_backends.backend two_backends.text
          two_backends.checked 0)
check_all_backend-keeps_example =
    check_all_backend-keeps deaf_connect deaf_write deaf_receive two_backends 0

check_after_removal_example :
    check_all_backend deaf_connect deaf_write deaf_receive
      (remove_backend first_addr (add_backend first_addr 1 two_backends))
      0
    ≢ ok (two_backends, 2)
check_after_removal_example =
    check_after_removal deaf_connect deaf_write deaf_receive first_addr 1 two_backends 0
      (two_backends, 2)
