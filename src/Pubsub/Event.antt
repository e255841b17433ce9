-- ===== src/Pubsub/Event.antt =====
-- src/pubsub/pub_type.hpp, src/pubsub/context.hpp, src/network/nw_ctx.hpp and src/proxy/proxy_ctx.hpp:
-- the kinds of event and what comes with each. A file descriptor is a number here: the contexts are
-- made with -1 and filled in before anything reads them.
use rproxy.Base.{ℕ, Bool, true, false, ◌≡◌, ◌↔◌, List, Option, arith}
use rproxy.Base.Eq.{Eq}
use rproxy.Network.Addr.{InetAddr}

-- `PubType`
pub data PubType : Type 0 where
  accepted dmp_register dmp_modify dmp_delete dmp_wait forward balance : PubType

abbrev pub number : PubType → ℕ
number accepted = 0
number dmp_register = 1
number dmp_modify = 2
number dmp_delete = 3
number dmp_wait = 4
number forward = 5
number balance = 6

abbrev pub pub_type_beq : PubType → PubType → Bool
pub_type_beq accepted accepted = true
pub_type_beq dmp_register dmp_register = true
pub_type_beq dmp_modify dmp_modify = true
pub_type_beq dmp_delete dmp_delete = true
pub_type_beq dmp_wait dmp_wait = true
pub_type_beq forward forward = true
pub_type_beq balance balance = true
pub_type_beq _ _ = false

pub pub_type_beq_iff : (s t : PubType) → (pub_type_beq s t ≡ true) ↔ (s ≡ t)
pub_type_beq_iff s t = ground arith

instance abbrev pub pub_type_eq : Eq PubType
pub_type_eq = record { beq = pub_type_beq; beq_iff = pub_type_beq_iff }

-- `DmpWaitContext::resp`
pub record Resp : Type 0 where
  pub fd : ℕ
  pub events : ℕ

-- The class of a context, with its fields.
pub data Body : Type 0 where
  accept_ctx : Body
  register_ctx : (fd events : ℕ) → (dmp : Option ℕ) → Body
  modify_ctx : (fd events : ℕ) → Body
  delete_ctx : (fd : ℕ) → Body
  wait_ctx : List Resp → Body
  balance_ctx : List ℕ → Body
  forward_ctx : List (ℕ × InetAddr) → Body

-- `Context`: `event_type_` can be changed after the object is made.
pub record Context : Type 0 where
  pub event_type : PubType
  pub body : Body
