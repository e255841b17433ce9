-- ===== src/Proxy/Loader.antt =====
-- src/proxy/loader.hpp and loader.cc: `LoadBalancer`. Its maps stand in their order of iteration. The
-- calls that take the lock are single steps.
pub mod Rotation
pub mod Keys
pub mod Reach
pub mod Spread
pub mod Probe
pub mod Health
pub mod Batches
pub mod Queue
mod Tests
use rproxy.Base.{
  ℕ, zero, suc, Bool, true, false, Option, none, some, List, [], ◌∷◌, ◌++◌, length, ◌==◌,
  if◌then◌else◌, Result, ok, err, ◌>>=◌, undefined, out_of_range, endless, ℤ, pos, negsuc, pred,
  is_negative, is_positive, is_nonzero,
}
use rproxy.Base.Eq.{nat_eq, text_eq}
use rproxy.Base.Maps.{find, has_key, emplace, erase}
use rproxy.Network.Addr.{InetAddr, to_string}
use rproxy.Pubsub.Event.{Context, Body, balance_ctx, forward_ctx, balance, forward}

abbrev pub Backends : Type 0
Backends = List (List ℕ × InetAddr)

pub record LoadBalancer : Type 0 where
  pub backend : Backends
  pub checked : List (List ℕ × ℕ)
  pub sock_queue : List (List ℕ)
  pub sockes : List ℕ
  pub text : List ℕ
  pub stopped : Bool

unfoldable pub new_balancer : LoadBalancer
new_balancer = record {
  backend = [];
  checked = [];
  sock_queue = [];
  sockes = [];
  text = [];
  stopped = false;
}

-- `addBackend`
unfoldable pub add_backend : InetAddr → ℕ → LoadBalancer → LoadBalancer
add_backend addr check_port lb = record lb {
  backend = emplace (to_string addr) addr lb.backend;
  checked = emplace (to_string addr) check_port lb.checked;
}

-- `removeBackend`
unfoldable pub remove_backend : InetAddr → LoadBalancer → LoadBalancer
remove_backend addr lb =
    if has_key (to_string addr) lb.backend
    then record lb { backend = erase (to_string addr) lb.backend }
    else lb

-- `specifyCheckText` and `stop`
pub specify_check_text : List ℕ → LoadBalancer → LoadBalancer
specify_check_text text lb = record lb { text = text }

unfoldable pub stop : LoadBalancer → LoadBalancer
stop lb = record lb { stopped = true }

-- `updateForLoadbalance`
unfoldable pub update_for_loadbalance : List ℕ → LoadBalancer → LoadBalancer
update_for_loadbalance sockes lb = record lb { sock_queue = lb.sock_queue ++ (sockes ∷ []) }

-- `update`: by the type of the event, and then the class of the context; the cast to another class
-- gives a null pointer.
update_by_class : Body → LoadBalancer → Result LoadBalancer
update_by_class (balance_ctx sockes) lb = ok (update_for_loadbalance sockes lb)
update_by_class _ lb = err undefined

pub update : Context → LoadBalancer → Result LoadBalancer
unfolding update_by_class
update ctx lb = elim ctx.event_type [ balance ↦ update_by_class ctx.body lb | _ ↦ ok lb ]

-- `if (++iter == backend_.end()) iter = backend_.begin();`
unfoldable pub advance : Backends → Backends → Backends
advance all [] = all
advance all (b ∷ rest) = b ∷ rest

-- The loop of `balancing`, at the iterator that `iter` is the rest of the map from. The end of the map
-- has no `second`.
pub balance_from : Backends → Backends → List ℕ → List (ℕ × InetAddr) → Result (List (ℕ × InetAddr))
balance_from all iter [] sock_map = ok sock_map
balance_from all [] (sock ∷ socks) sock_map = err undefined
balance_from all ((_, addr) ∷ rest) (sock ∷ socks) sock_map =
    balance_from all (advance all rest) socks (emplace sock addr sock_map)

-- `balancing`
pub balancing : List ℕ → LoadBalancer → Result (List (ℕ × InetAddr))
unfolding balance_from advance
balancing sockes lb = balance_from lb.backend lb.backend sockes []

-- One round of the loop of `loadbalance`: `none` where it waits for a batch, else the context that it
-- hands to its subscribers.
unfoldable pub loadbalance_round : LoadBalancer → Option (Result (LoadBalancer × Context))
unfolding balancing
loadbalance_round lb = elim lb.sock_queue [
  | [] ↦ none
  | batch ∷ queue ↦ some (
      balancing batch lb >>= λ sock_map. ok (
        record lb { sockes = batch; sock_queue = queue },
        record { event_type = forward; body = forward_ctx sock_map },
      ))
]

-- `backend_.at(key)`
abbrev pub at_key {ℓ} : {A : Type ℓ} → Option A → Result A
at_key none = err out_of_range
at_key (some a) = ok a

-- `sent == len`, -1 being no length of a text.
abbrev pub sent_all : List ℕ → Option ℕ → Bool
sent_all text none = false
sent_all text (some n) = n == length text

-- The network as the health check meets it. `connect` is `StreamSocket::connectTo`, which throws or
-- gives a descriptor; `write` gives the number of bytes sent, or `none` for -1; `receive` is `recv`
-- into the buffer and tells whether the text in it is the expected one.
module _ {S : Type 0} (connect : InetAddr → S → Result (ℕ × S))
    (write : ℤ → List ℕ → S → Option ℕ × S) (receive : ℤ → List ℕ → S → Bool × S) where
  -- `do { sock = connectTo(addr); if (sock > 0) break; } while (--time);`, on fuel, with `sock` where
  -- it ends.
  pub connect_loop : ℕ → ℤ → InetAddr → S → Result (ℤ × S)
  connect_loop zero time addr s = err endless
  connect_loop (suc fuel) time addr s = do
    (fd, s') ← connect addr s
    let again = connect_loop fuel (pred time) addr s'
    (if is_positive (pos fd)
        then ok (pos fd, s')
        else if is_nonzero (pred time)
        then again
        else ok (pos fd, s'))

  -- The other two loops, with `time` where they end.
  pub write_loop : ℕ → ℤ → ℤ → List ℕ → S → Result (ℤ × S)
  write_loop zero time sock text s = err endless
  write_loop (suc fuel) time sock text s =
      let (sent, s') = write sock text s in
      let again = write_loop fuel (pred time) sock text s' in
      if sent_all text sent
      then ok (time, s')
      else if is_nonzero (pred time)
      then again
      else ok (pred time, s')

  pub receive_loop : ℕ → ℤ → ℤ → List ℕ → S → Result (ℤ × S)
  receive_loop zero time sock text s = err endless
  receive_loop (suc fuel) time sock text s =
      let (fits, s') = receive sock text s in
      let again = receive_loop fuel (pred time) sock text s' in
      if fits then ok (time, s') else if is_nonzero (pred time) then again else ok (pred time, s')

  pub drop_backend : List ℕ → LoadBalancer → LoadBalancer
  drop_backend key lb = record lb { backend = erase key lb.backend }

  -- The third part of a round of `checkAllBackend`: the answer.
  pub check_answer : List ℕ → ℤ → LoadBalancer → S → Result (LoadBalancer × S)
  check_answer key sock lb s = do
    (time, s') ← receive_loop 3 (pos 3) sock lb.text s
    ok (if is_negative time then drop_backend key lb else lb, s')

  -- The second part: the text is sent.
  pub check_text : List ℕ → ℤ → LoadBalancer → S → Result (LoadBalancer × S)
  check_text key sock lb s = do
    (time, s') ← write_loop 3 (pos 3) sock lb.text s
    let answer = check_answer key sock lb s'
    (if is_negative time then ok (drop_backend key lb, s') else answer)

  -- One round of the loop of `checkAllBackend`.
  pub check_backend : List ℕ → ℕ → LoadBalancer → S → Result (LoadBalancer × S)
  check_backend key check_port lb s = do
    known ← at_key (find key lb.backend)
    (sock, s') ← connect_loop 3 (pos 3) (record { ip = known.ip; port = check_port }) s
    let text = check_text key sock lb s'
    (if is_negative sock then ok (drop_backend key lb, s') else text)

  pub check_each : List (List ℕ × ℕ) → LoadBalancer → S → Result (LoadBalancer × S)
  check_each [] lb s = ok (lb, s)
  check_each ((key, check_port) ∷ rest) lb s = do
    (lb', s') ← check_backend key check_port lb s
    check_each rest lb' s'

  -- `checkAllBackend`
  pub check_all_backend : LoadBalancer → S → Result (LoadBalancer × S)
  check_all_backend lb s = check_each lb.checked lb s
