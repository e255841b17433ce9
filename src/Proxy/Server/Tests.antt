-- ===== src/Proxy/Server/Tests.antt =====
-- `ProxyServer` of src/proxy/proxy_server.cc at concrete inputs.
use rproxy.Base.{ℕ, zero, suc, ◌≡◌, refl, List, [], ◌∷◌, some, arith, false, ok, err, out_of_range}
use rproxy.Network.Demultiplex.{Demultiplex}
use rproxy.Proxy.Server.{ProxyServer, forward_one}
use rproxy.Network.Addr.{InetAddr, to_string}
use rproxy.Network.Socket.Peer.{Connects}
use rproxy.Proxy.Server.{pass_on}
use rproxy.Proxy.Server.Accounts.{Accounts, pass_on-Accounts}
use rproxy.Proxy.Server.Twice.{AreApart, WatchedTwice, forward_one-Twice, update_for_wait-Throws}
use rproxy.Base.Eq.{nat_eq, text_eq}
use rproxy.Base.Maps.{find, has_key, contains}
use rproxy.Network.Socket.Local.{calls}
use rproxy.Pubsub.Event.{Resp}
use rproxy.Proxy.Server.{zero_copy, update_for_forward, update_for_wait}
use rproxy.Proxy.Server.Pipe.{Conserves, zero_copy-Conserves}
use rproxy.Proxy.Server.Pairs.{IsValid, KernelLaws}
use rproxy.Proxy.Server.Outcome.{Goes, Unreached, SomeUnreached}
use rproxy.Proxy.Server.Forward.{Keeps, AllServed, update_for_forward-Serves}
use rproxy.Proxy.Server.Wait.{Leaves, AllKnown, closed_by, update_for_wait-Leaves}
use rproxy.Proxy.Server.Sockets.{Splices, kernel_of, CallLaws, kernel_of-KernelLaws}
use rproxy.Proxy.Server.Slow.{
  home, slow, given, slow-KernelLaws, slow-Moves, serving, serving-IsValid,
}

zero_copy-Conserves_example : Conserves (9 ∷ []) (some (1 ∷ 2 ∷ [])) (zero_copy slow 7 5 (9 ∷ []) 8)
zero_copy-Conserves_example = zero_copy-Conserves slow slow-Moves 7 5 (9 ∷ []) 8

update_for_forward-Serves_example :
    Goes
      (SomeUnreached slow ((7, home) ∷ (6, home) ∷ []))
      (λ p' s'. IsValid given p' s' × Keeps serving p' × AllServed ((7, home) ∷ (6, home) ∷ []) p')
      (update_for_forward slow ((7, home) ∷ (6, home) ∷ []) serving 8)
update_for_forward-Serves_example =
    update_for_forward-Serves slow given slow-KernelLaws slow-Moves ((7, home) ∷ (6, home) ∷ [])
      serving 8 (serving-IsValid 8 (omega arith))

-- The backend 5 has an answer and then leaves.
abbrev hung_up : List Resp
hung_up = record { fd = 5; events = 0x11 } ∷ []

hung_up-AllKnown : AllKnown hung_up serving
unfolding has_key find contains
hung_up-AllKnown = (refl, refl, tt)

update_for_wait-Leaves_example :
    Leaves given (closed_by hung_up) serving (update_for_wait slow hung_up serving 8)
update_for_wait-Leaves_example =
    update_for_wait-Leaves slow given slow-KernelLaws slow-Moves hung_up serving 8
      (serving-IsValid 8 (omega arith)) hung_up-AllKnown

-- The splices of the slow kernel
abbrev trickle : Splices ℕ
trickle = record { into_pipe = slow.splice_in; out_of_pipe = slow.splice_out }

calls-CallLaws : CallLaws calls trickle given
calls-CallLaws = record {
  socket-new = λ s fd e. ground (arith, e);
  socket-keeps = λ s j h. ground (arith, h);
  connect-keeps = λ fd j a s. refl;
  into-keeps = λ fd j s. refl;
  out-keeps = λ fd j bytes s. refl;
  close-keeps = λ fd j s h. refl;
}

kernel_of-KernelLaws_example :
    KernelLaws (kernel_of calls trickle) given
    × ((addr : InetAddr) (s : ℕ) → Connects calls addr s ((kernel_of calls trickle).connect addr s))
kernel_of-KernelLaws_example = kernel_of-KernelLaws calls trickle given calls-CallLaws

-- A group of two loops
abbrev two_loops : ProxyServer
two_loops = record serving {
  group =
      let d : Demultiplex = record { id = 1; dmpfd = 3; notify = false } in
      let e : Demultiplex = record { id = 2; dmpfd = 4; notify = false } in
      record { dmpes = d ∷ e ∷ []; iter = d ∷ e ∷ [] };
}

two_loops-AreApart : AreApart two_loops.group.dmpes
two_loops-AreApart zero zero d e f g h = refl
two_loops-AreApart zero (suc zero) d e f g h = ground (arith, f, g, h)
two_loops-AreApart (suc zero) zero d e f g h = ground (arith, f, g, h)
two_loops-AreApart (suc zero) (suc zero) d e f g h = refl
two_loops-AreApart i (suc (suc j)) d e f g h = absurd cc
two_loops-AreApart (suc (suc i)) j d e f g h = absurd cc

forward_one-Twice_example :
    Goes
      (Unreached slow home)
      (λ p' s'. WatchedTwice 6 0 two_loops.group.dmpes p')
      (forward_one slow 6 home two_loops 8)
unfolding find
forward_one-Twice_example =
    forward_one-Twice slow given slow-KernelLaws slow-Moves 6 0 home two_loops 8
      (record { inside = omega arith; place = refl }) refl (omega arith) two_loops-AreApart

update_for_wait-Throws_example :
    (p' : ProxyServer) × (s' : ℕ) × (update_for_wait slow hung_up serving 8 ≡ ok (p', s'))
    × (update_for_wait slow hung_up p' s' ≡ err out_of_range)
unfolding has_key find
update_for_wait-Throws_example =
    update_for_wait-Throws slow given slow-KernelLaws slow-Moves (record { fd = 5; events = 0x11 })
      serving 8 (serving-IsValid 8 (omega arith)) refl refl

-- The address of the clients has an account.
abbrev counted : ProxyServer
counted = record serving {
  center = record { publishers = []; subscribers = []; traffic = (to_string home, 5) ∷ [] };
}

pass_on-Accounts_example :
    Accounts slow
      (find (to_string home) counted.center.traffic)
      7
      5
      (to_string home)
      counted
      8
      (pass_on slow 7 counted 8)
unfolding find
pass_on-Accounts_example = pass_on-Accounts slow given slow-KernelLaws slow-Moves 7 5 counted 8 refl
