-- ===== src/Network/Demultiplex.antt =====
-- src/network/demultiplex.hpp and demultiplex.cc: `Demultiplex`. A call gives the effects that it has,
-- in order: what the center is asked to pass on, and what the kernel is asked to do. `setNonBlocking`,
-- which `demultiplexRegister` calls first, is left out.
use Prim.Native.Nat.{bit_and, bit_or}
use rproxy.Base.{
  ℕ, ◌^◌, Bool, not, ◌&&◌, ◌||◌, Option, none, some, List, [], ◌∷◌, ◌++◌, ◌==◌, if◌then◌else◌,
  Result, ok, err, undefined,
}
use rproxy.Pubsub.Event.{
  PubType, dmp_register, dmp_modify, dmp_delete, dmp_wait, Context, register_ctx, modify_ctx,
  delete_ctx, wait_ctx, Resp,
}

-- `EPOLLIN`, `EPOLLOUT`, `EPOLLERR | EPOLLHUP | EPOLLRDHUP` and `EPOLLET`
abbrev pub readable : ℕ
readable = 0x1

abbrev pub writable : ℕ
writable = 0x4

abbrev pub closable : ℕ
closable = 0x2018

abbrev pub edge_triggered : ℕ
edge_triggered = 2 ^ 31

-- `READABLE | CLOSABLE | EPOLLET`
abbrev pub default_events : ℕ
default_events = bit_or (bit_or readable closable) edge_triggered

-- A mask as a condition
abbrev pub meets : ℕ → ℕ → Bool
meets events mask = not (bit_and events mask == 0)

pub record Demultiplex : Type 0 where
  pub id : ℕ
  pub dmpfd : ℕ
  pub notify : Bool

pub data Effect : Type 0 where
  notifies : (publisher : ℕ) → PubType → Context → Effect
  epoll_add epoll_mod : (dmpfd fd events : ℕ) → Effect
  epoll_del : (dmpfd fd : ℕ) → Effect
  shuts_write : (fd : ℕ) → Effect
  closes : (fd : ℕ) → Effect

-- `if (notify_ || (!notify_ && notify)) center_->notifySubscriber(...)`
unfoldable pub tell : Bool → PubType → Context → Demultiplex → List Effect
tell forced t ctx d = if d.notify || (not d.notify && forced) then notifies d.id t ctx ∷ [] else []

-- `enableNotify`
unfoldable pub enable_notify : Bool → Demultiplex → Demultiplex
enable_notify b d = record d { notify = b }

-- `demultiplexRegister`: the context carries the demultiplexer only where it is passed on.
unfoldable pub demultiplex_register : ℕ → Bool → Demultiplex → List Effect
unfolding tell
demultiplex_register sockfd forced d =
    let self : Option ℕ = if d.notify || (not d.notify && forced) then some d.id else none in
    let ctx : Context = record {
      event_type = dmp_register;
      body = register_ctx sockfd default_events self;
    } in
    tell forced dmp_register ctx d ++ (epoll_add d.dmpfd sockfd default_events ∷ [])

-- `demultiplexModify`: a context of another class is a null pointer here.
unfoldable pub demultiplex_modify : Context → Bool → Demultiplex → Result (List Effect)
unfolding tell
demultiplex_modify ctx forced d =
    let ctx' = record ctx { event_type = dmp_modify } in
    elim ctx.body [
      | modify_ctx fd events ↦
          ok (tell forced dmp_modify ctx' d ++ (epoll_mod d.dmpfd fd events ∷ []))
      | _ ↦ err undefined
    ]

-- `demultiplexRemove`
unfoldable pub demultiplex_remove : Context → Bool → Demultiplex → Result (List Effect)
unfolding tell
demultiplex_remove ctx forced d =
    let ctx' = record ctx { event_type = dmp_delete } in
    elim ctx.body [
      | delete_ctx fd ↦ ok (tell forced dmp_delete ctx' d ++ (epoll_del d.dmpfd fd ∷ []))
      | _ ↦ err undefined
    ]

-- `demultiplexWait`, where `epoll_wait` gave these events (none, where it failed or was interrupted).
unfoldable pub demultiplex_wait : List Resp → Bool → Demultiplex → List Effect
unfolding tell
demultiplex_wait [] forced d = []
demultiplex_wait (r ∷ rs) forced d =
    tell forced dmp_wait (record { event_type = dmp_wait; body = wait_ctx (r ∷ rs) }) d
