-- ===== src/Network/Reactor/Tests.antt =====
-- The loops of a `TcpServer` at concrete inputs.
use rproxy.Base.{◌≡◌, refl, List, [], ◌∷◌, true, arith, ok}
use rproxy.Base.Maps.{find, has_key}
use rproxy.Network.Demultiplex.{Demultiplex}
use rproxy.Network.Group.{Group}
use rproxy.Network.Server.{TcpServer}
use rproxy.Network.Server.Clients.{loop, peer, refuses}
use rproxy.Network.Reactor.{Reactor, Event, accepts, reports, run}
use rproxy.Network.Reactor.Heard.{watched_from, total}
use rproxy.Network.Server.Clients.{client, two_clients}
use rproxy.Network.Reactor.Race.{EndsNext, close_connection-EndsNext}
use rproxy.Network.Reactor.Watch.{IsConsistent, run-IsConsistent}

abbrev first_loop : Demultiplex
first_loop = record { id = 1; dmpfd = 3; notify = true }

abbrev second_loop : Demultiplex
second_loop = record { id = 2; dmpfd = 4; notify = true }

abbrev both_loops : Group
both_loops = record { dmpes = first_loop ∷ second_loop ∷ []; iter = first_loop ∷ second_loop ∷ [] }

abbrev no_clients : TcpServer
no_clients = record {
  id = 9;
  conn_map = [];
  total_conn = 0;
  center = record { publishers = []; subscribers = []; traffic = [] };
  effects = [];
}

abbrev fresh : Reactor
fresh = record { group = both_loops; owner = loop; server = no_clients }

fresh-IsConsistent : IsConsistent fresh
unfolding watched_from total find has_key
fresh-IsConsistent = record {
  ready = record {
    all_notify = (refl, (refl, tt));
    rest_notify = (refl, (refl, tt));
    some_dmp = omega arith;
    some_next = omega arith;
  };
  tracked = record {
    steady = λ fd c e. ground (arith, e);
    heard = λ fd. record { watched = λ dmpfd. refl; closed = omega arith };
  };
}

-- A client comes, and hangs up.
abbrev comes_and_goes : List Event
comes_and_goes = accepts 7 ∷ reports first_loop (record { fd = 7; events = 0x2011 } ∷ []) ∷ []

run-IsConsistent_example :
    (r : Reactor) × (run peer refuses comes_and_goes fresh ≡ ok r) × IsConsistent r
unfolding has_key find
run-IsConsistent_example =
    run-IsConsistent peer refuses comes_and_goes fresh (refl, (λ r e. (tt, (λ q f. tt))))
      fresh-IsConsistent

close_connection-EndsNext_example : EndsNext loop peer refuses 7 (client 7) two_clients
unfolding find
close_connection-EndsNext_example =
    close_connection-EndsNext loop peer refuses (client 7) two_clients refl refl refl
