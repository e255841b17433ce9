-- ===== src/Proxy/Ping/Tests.antt =====
-- `Ping` of src/proxy/ping.hpp at concrete inputs.
use rproxy.Base.{ℕ, ◌≡◌, refl, none, List, [], ◌∷◌}
use rproxy.Proxy.Ping.{checksum, sum_words, add_tail, fold}

-- The header of an echo request, on a little-endian machine
abbrev header : List ℕ
header = 8 ∷ 0 ∷ 0 ∷ 0 ∷ []

checksum_of_request : checksum header none ≡ 0xfff7
unfolding checksum sum_words add_tail fold
checksum_of_request = refl
