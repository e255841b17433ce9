-- ===== src/Network/Addr/Tests.antt =====
-- `InetAddr` of src/network/stream_socket.cc at concrete inputs.
use rproxy.Base.{◌+◌, ◌≡◌, refl, [], ◌∷◌, arith}
use rproxy.Network.Addr.{InetAddr, to_string}
use rproxy.Network.Addr.Injective.{to_string-injective}

-- 10.0.0.1, port 5113
abbrev backend : InetAddr
backend = record { ip = 49 ∷ 48 ∷ 46 ∷ 48 ∷ 46 ∷ 48 ∷ 46 ∷ 49 ∷ []; port = 5113 }

backend_text :
    to_string backend
    ≡ 91 ∷ 49 ∷ 48 ∷ 46 ∷ 48 ∷ 46 ∷ 48 ∷ 46 ∷ 49 ∷ 58 ∷ 53 ∷ 49 ∷ 49 ∷ 51 ∷ 93 ∷ []
unfolding to_string
backend_text = refl

to_string-injective_example : backend ≡ record { ip = backend.ip; port = 5112 + 1 }
to_string-injective_example =
    to_string-injective backend (record { ip = backend.ip; port = 5112 + 1 }) (omega arith)
      (omega arith) (omega arith) (omega arith) refl
