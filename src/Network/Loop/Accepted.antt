-- ===== src/Network/Loop/Accepted.antt =====
-- What becomes of the sockets that `EventLoop::loop` of src/network/eventloop.cc accepts.
use rproxy.Base.{ℕ, ◌<◌, ◌≡◌, refl, ◌∙◌, Option, none, some, List, [], ◌∷◌, ◌++◌, length, ok, ◌>>=◌}
use rproxy.Network.Demultiplex.{Demultiplex}
use rproxy.Network.Group.{Group, init, register_fd}
use rproxy.Network.Group.Turns.{register_all, in_turn, register_all-in_turn}
use rproxy.Network.Loop.{accept, loop}

abbrev pub accepted : List (Option ℕ) → List ℕ
accepted [] = []
accepted (none ∷ rest) = accepted rest
accepted (some fd ∷ rest) = fd ∷ accepted rest

loop-register_all :
    (answers : List (Option ℕ)) (g : Group) → loop answers g ≡ register_all (accepted answers) g
unfolding loop accept register_all
loop-register_all [] g = refl
loop-register_all (none ∷ rest) g = loop-register_all rest g
loop-register_all (some fd ∷ rest) g =
    λ i. register_fd fd g >>= λ p. loop-register_all rest p.0 i >>= λ effects. ok (p.1 ++ effects)

-- The loop, with a group that was just made and has a thread: each socket that is accepted is
-- registered once, with the demultiplexers in turn; where `accept` fails, the loop goes on, and no
-- turn is lost.
pub loop-in_turn :
    (dmpes : List Demultiplex) (answers : List (Option ℕ))
    → 0 < length dmpes
    → loop answers (init dmpes) ≡ ok (in_turn dmpes 0 (accepted answers))
loop-in_turn dmpes answers h =
    loop-register_all answers (init dmpes) ∙ register_all-in_turn dmpes (accepted answers) h
