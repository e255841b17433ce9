-- ===== src/Network/Group.antt =====
-- src/network/group.hpp: `LoopThreadGroup`. Its threads run the loop around `demultiplexWait`.
pub mod Turns
use rproxy.Base.{ℕ, false, List, [], ◌∷◌, Result, ok, err, undefined}
use rproxy.Network.Demultiplex.{Demultiplex, Effect, demultiplex_register}

-- The iterator is what it stands before: the rest of `dmpes_`.
pub record Group : Type 0 where
  pub dmpes : List Demultiplex
  pub iter : List Demultiplex

-- What `init` leaves.
unfoldable pub init : List Demultiplex → Group
init dmpes = record { dmpes = dmpes; iter = dmpes }

-- `if (iter_ is the end) iter_ = dmpes_.begin();`
unfoldable pub wrap_around : List Demultiplex → List Demultiplex → List Demultiplex
wrap_around all [] = all
wrap_around all (d ∷ rest) = d ∷ rest

-- `registerFd`: through the end of the vector where there is no demultiplexer.
unfoldable pub register_fd : ℕ → Group → Result (Group × List Effect)
register_fd fd g = elim g.iter [
  | [] ↦ err undefined
  | d ∷ rest ↦ ok (record g { iter = wrap_around g.dmpes rest }, demultiplex_register fd false d)
]
