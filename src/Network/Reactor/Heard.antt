-- ===== src/Network/Reactor/Heard.antt =====
-- What is heard of a descriptor in the effects of a `TcpServer` (src/network/tcp_server.cc) and of its
-- demultiplexers (src/network/demultiplex.cc).
use rproxy.Base.{
  ℕ, ◌+◌, Bool, true, false, ◌&&◌, ◌≡◌, refl, List, [], ◌∷◌, ◌++◌, if◌then◌else◌, arith,
}
use rproxy.Base.Eq.{nat_eq, same}
use rproxy.Network.Demultiplex.{Effect, epoll_add, epoll_del, closes}

-- Whether the epoll instance `dmpfd` watches `fd` after an effect. A descriptor that is closed is
-- watched no more.
abbrev pub watched_after : ℕ → ℕ → Bool → Effect → Bool
watched_after dmpfd fd w (epoll_add d j events) = if same d dmpfd && same j fd then true else w
watched_after dmpfd fd w (epoll_del d j) = if same d dmpfd && same j fd then false else w
watched_after dmpfd fd w (closes j) = if same j fd then false else w
watched_after dmpfd fd w e = w

unfoldable pub watched_from : ℕ → ℕ → Bool → List Effect → Bool
watched_from dmpfd fd w [] = w
watched_from dmpfd fd w (e ∷ es) = watched_from dmpfd fd (watched_after dmpfd fd w e) es

pub watched_from-append :
    (dmpfd fd : ℕ) (w : Bool) (es fs : List Effect)
    → watched_from dmpfd fd w (es ++ fs) ≡ watched_from dmpfd fd (watched_from dmpfd fd w es) fs
unfolding watched_from
watched_from-append dmpfd fd w [] fs = refl
watched_from-append dmpfd fd w (e ∷ es) fs =
    watched_from-append dmpfd fd (watched_after dmpfd fd w e) es fs

-- How often a descriptor is registered and closed.
abbrev pub adds : ℕ → Effect → ℕ
adds fd (epoll_add d j events) = if same j fd then 1 else 0
adds fd e = 0

abbrev pub ends_with : ℕ → Effect → ℕ
ends_with fd (closes j) = if same j fd then 1 else 0
ends_with fd e = 0

unfoldable pub total : (Effect → ℕ) → List Effect → ℕ
total f [] = 0
total f (e ∷ es) = f e + total f es

pub total-append :
    (f : Effect → ℕ) (es fs : List Effect) → total f (es ++ fs) ≡ total f es + total f fs
unfolding total
total-append f [] fs = omega arith
total-append f (e ∷ es) fs = omega (arith, total-append f es fs)
