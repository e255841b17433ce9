-- ===== src/Pubsub/Center/Tests.antt =====
-- `PubSubCenter` of src/pubsub/pub_sub.cc at concrete inputs.
use rproxy.Base.{ℕ, ◌≡◌, refl, List, [], ◌∷◌, none, some, ok}
use rproxy.Base.Eq.{nat_eq, text_eq}
use rproxy.Base.Maps.{has_key, find, contains, emplace, assign, insert, remove}
use rproxy.Pubsub.Event.{Context, dmp_wait, dmp_delete, balance, balance_ctx}
use rproxy.Pubsub.Center.{
  Center, empty_center, notify_subscriber, register_pub, subscribe, un_subscribe, receivers,
  deliver, set_of, store_set,
}
use rproxy.Pubsub.Center.Spec.{nobody}
use rproxy.Pubsub.Center.Invariant.{IsValid, Distinct, empty_center-IsValid}
use rproxy.Pubsub.Center.Refine.{Represents}
use rproxy.Pubsub.Center.Run.{
  Op, registers, subscribes, un_subscribes, notifies, run, step, spec_run, log_call, center_refines,
  empty_center-Represents, notify_after_run,
}

abbrev nothing : Context
nothing = record { event_type = balance; body = balance_ctx [] }

-- A subscription before the registration is dropped; one that is repeated counts once.
abbrev calls : List Op
calls =
    subscribes 1 dmp_wait (some 8)
    ∷ registers 1 (some 100)
    ∷ subscribes 1 dmp_wait (some 7)
    ∷ subscribes 1 dmp_wait (some 9)
    ∷ subscribes 1 dmp_wait (some 7)
    ∷ registers 1 none
    ∷ subscribes 1 dmp_delete (some 6)
    ∷ un_subscribes 1 dmp_wait (some 9)
    ∷ notifies 1 dmp_wait nothing
    ∷ subscribes 1 dmp_wait (some 5)
    ∷ []

delivered_after_calls : receivers 1 dmp_wait (run empty_center calls) ≡ 5 ∷ 7 ∷ []
unfolding receivers run step empty_center register_pub subscribe un_subscribe notify_subscriber
    deliver set_of store_set has_key find emplace assign insert remove contains
delivered_after_calls = refl

center_refines_example :
    IsValid (run empty_center calls) × Represents (run empty_center calls) (spec_run nobody calls)
center_refines_example =
    center_refines empty_center nobody calls empty_center-IsValid empty_center-Represents

notify_after_run_example :
    (c : Center) × (log : List ℕ) × (notify_subscriber log_call 1 dmp_wait nothing
        (run empty_center calls)
        []
      ≡ ok (c, log))
    × ((s : ℕ) → contains s log ≡ (spec_run nobody calls).told 1 dmp_wait s)
    × Distinct log
notify_after_run_example = notify_after_run calls 1 dmp_wait nothing
