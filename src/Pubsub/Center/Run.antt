-- ===== src/Pubsub/Center/Run.antt =====
-- Histories of calls of `PubSubCenter` (src/pubsub/pub_sub.cc), and whom a notification reaches.
use rproxy.Base.{
  ℕ, ◌≡◌, refl, ap, ◌∙◌, sym, Option, List, [], ◌∷◌, ◌++◌, append_assoc, append-nil, arith,
  if◌then◌else◌, Result, ok, err,
}
use rproxy.Base.Eq.{nat_eq}
use rproxy.Base.Maps.{has_key, contains, find}
use rproxy.Pubsub.Event.{PubType, Context}
use rproxy.Pubsub.Center.{
  Center, register_pub, un_register_pub, subscribe, un_subscribe, receivers, deliver,
  notify_subscriber, empty_center, set_of, store_set,
}
use rproxy.Pubsub.Center.Spec
use rproxy.Pubsub.Center.Spec.{Registry, nobody}
use rproxy.Pubsub.Center.Invariant.{IsValid, Distinct, empty_center-IsValid}
use rproxy.Pubsub.Center.Refine.{
  Represents, Agrees, register_pub-Agrees, un_register_pub-Agrees, subscribe-Agrees,
  un_subscribe-Agrees, notified-Agrees,
}

pub data Op : Type 0 where
  registers : ℕ → Option ℕ → Op
  un_registers : ℕ → Op
  subscribes : ℕ → PubType → Option ℕ → Op
  un_subscribes : ℕ → PubType → Option ℕ → Op
  notifies : ℕ → PubType → Context → Op

-- A call that throws leaves the object as it was.
abbrev after {ℓ} : {S : Type ℓ} → S → Result S → S
after s (ok t) = t
after s (err e) = s

-- A subscriber that writes down who was told.
abbrev pub log_call : ℕ → Context → List ℕ → Result (List ℕ)
log_call r ctx log = ok (log ++ r ∷ [])

abbrev center_of : Result (Center × List ℕ) → Result Center
center_of (ok (c, log)) = ok c
center_of (err e) = err e

unfoldable pub step : Center → Op → Center
step c (registers id p) = after c (register_pub id p c)
step c (un_registers id) = un_register_pub id c
step c (subscribes id t s) = after c (subscribe id t s c)
step c (un_subscribes id t s) = after c (un_subscribe id t s c)
step c (notifies id t ctx) = after c (center_of (notify_subscriber log_call id t ctx c []))

unfoldable pub run : Center → List Op → Center
run c [] = c
run c (op ∷ ops) = run (step c op) ops

unfoldable pub spec_step : Registry → Op → Registry
spec_step r (registers id p) = after r (Spec.register id p r)
spec_step r (un_registers id) = Spec.un_register id r
spec_step r (subscribes id t s) = after r (Spec.subscribe id t s r)
spec_step r (un_subscribes id t s) = after r (Spec.un_subscribe id t s r)
spec_step r (notifies id t ctx) = r

unfoldable pub spec_run : Registry → List Op → Registry
spec_run r [] = r
spec_run r (op ∷ ops) = spec_run (spec_step r op) ops

-- Every receiver is told, in the order of the set.
deliver_log : (rs log : List ℕ) (ctx : Context) → deliver log_call rs ctx log ≡ ok (log ++ rs)
unfolding deliver
deliver_log [] log ctx = ap ok (sym (append-nil log))
deliver_log (r ∷ rs) log ctx =
    deliver_log rs (log ++ r ∷ []) ctx ∙ ap ok (append_assoc log (r ∷ []) rs)

receivers-Distinct : (id : ℕ) (t : PubType) (c : Center) → IsValid c → Distinct (receivers id t c)
unfolding receivers
receivers-Distinct id t c v = ground (arith, v.unique id t)

after-Agrees :
    (c : Center) (r : Registry) (x : Result Center) (y : Result Registry)
    → IsValid c
    → Represents c r
    → Agrees x y
    → IsValid (after c x) × Represents (after c x) (after r y)
after-Agrees c r (ok d) (ok s) v rep a = a
after-Agrees c r (err e) (err f) v rep a = (v, rep)
after-Agrees c r (ok d) (err f) v rep a = absurd a
after-Agrees c r (err e) (ok s) v rep a = absurd a

step-Represents :
    (c : Center) (r : Registry) (op : Op)
    → IsValid c
    → Represents c r
    → IsValid (step c op) × Represents (step c op) (spec_step r op)
unfolding step spec_step notify_subscriber
step-Represents c r (registers id p) v rep =
    after-Agrees c r (register_pub id p c) (Spec.register id p r) v rep
      (register_pub-Agrees c r v rep id p)
step-Represents c r (un_registers id) v rep = un_register_pub-Agrees c r v rep id
step-Represents c r (subscribes id t s) v rep =
    after-Agrees c r (subscribe id t s c) (Spec.subscribe id t s r) v rep
      (subscribe-Agrees c r v rep id t s)
step-Represents c r (un_subscribes id t s) v rep =
    after-Agrees c r (un_subscribe id t s c) (Spec.un_subscribe id t s r) v rep
      (un_subscribe-Agrees c r v rep id t s)
step-Represents c r (notifies id t ctx) v rep = rw deliver_log (notified-Agrees c r v rep id t)

-- After any history of calls, those that throw included, the center stands for the registry of the
-- same history.
pub center_refines :
    (c : Center) (r : Registry) (ops : List Op)
    → IsValid c
    → Represents c r
    → IsValid (run c ops) × Represents (run c ops) (spec_run r ops)
unfolding run spec_run
center_refines c r [] v rep = (v, rep)
center_refines c r (op ∷ ops) v rep =
    let s = step-Represents c r op v rep in center_refines (step c op) (spec_step r op) ops s.0 s.1

pub empty_center-Represents : Represents empty_center nobody
unfolding empty_center receivers has_key find contains
empty_center-Represents = record { known = λ i. refl; told = λ i t s. refl }

-- After any history of calls from the start of the program, a notification reaches exactly the
-- subscribers that the history leaves subscribed to that event of a registered publisher, and each of
-- them once.
pub notify_after_run :
    (ops : List Op) (id : ℕ) (t : PubType) (ctx : Context)
    → (c : Center) × (log : List ℕ) × (notify_subscriber log_call id t ctx (run empty_center ops) []
        ≡ ok (c, log))
      × ((s : ℕ) → contains s log ≡ (spec_run nobody ops).told id t s)
      × Distinct log
unfolding notify_subscriber
notify_after_run ops id t ctx =
    let r = center_refines empty_center nobody ops empty_center-IsValid empty_center-Represents in
    let c = run empty_center ops in
    (
      if has_key id c.publishers then store_set id t (set_of id t c) c else c,
      receivers id t c,
      rw deliver_log refl,
      λ s. r.1.told id t s,
      receivers-Distinct id t c r.0,
    )
