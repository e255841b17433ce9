-- ===== src/Network/Channel.antt =====
-- src/network/channel.hpp and channel.cc: `Channel`. Its calls take the demultiplexer that `dmp_ptr_`
-- points to, and give their effects.
use Prim.Native.Nat.{bit_and, bit_or}
use rproxy.Base.{
  ℕ, ◌-◌, ◌^◌, Bool, true, false, ◌≡◌, refl, Option, List, [], ◌∷◌, ◌++◌, if◌then◌else◌, Result, ok,
  err, ◌>>=◌, undefined, arith, Bool-cases, inl, inr,
}
use rproxy.Pubsub.Event.{
  PubType, dmp_modify, dmp_delete, Context, modify_ctx, delete_ctx, register_ctx,
}
use rproxy.Network.Demultiplex.{
  Demultiplex, Effect, epoll_mod, epoll_del, tell, readable, writable, default_events,
  demultiplex_modify, demultiplex_remove,
}

pub record Channel : Type 0 where
  pub left : Bool
  pub socket : ℕ

unfoldable pub new_channel : ℕ → Channel
new_channel fd = record { left = false; socket = fd }

-- `leave`
pub leave : Demultiplex → Channel → Result (Channel × List Effect)
leave d ch = do
  effects ←
      demultiplex_remove (record { event_type = dmp_delete; body = delete_ctx ch.socket }) false d
  ok (record ch { left = true }, effects)

-- The destructor
pub destroy : Demultiplex → Channel → Result (List Effect)
unfolding leave
destroy d ch =
    if ch.left then ok [] else leave d ch >>= λ record { 0 = ch'; 1 = effects }. ok effects

-- What the four calls below share: the context must be a `DmpModifyContext`; its descriptor and its
-- events are set, and it is handed on.
change : (ℕ → ℕ) → Context → Demultiplex → Channel → Result (List Effect)
change f ctx d ch = elim ctx.body [
  | modify_ctx fd events ↦
      demultiplex_modify (record ctx { body = modify_ctx ch.socket (f events) }) false d
  | _ ↦ err undefined
]

-- `~mask` on 32 bits
abbrev pub complement : ℕ → ℕ
complement mask = 2 ^ 32 - 1 - mask

pub enable_read : Context → Demultiplex → Channel → Result (List Effect)
unfolding change
enable_read = change (λ events. bit_or events readable)

pub enable_write : Context → Demultiplex → Channel → Result (List Effect)
unfolding change
enable_write = change (λ events. bit_or events writable)

pub disable_read : Context → Demultiplex → Channel → Result (List Effect)
unfolding change
disable_read = change (λ events. bit_and events (complement readable))

pub disable_write : Context → Demultiplex → Channel → Result (List Effect)
unfolding change
disable_write = change (λ events. default_events)

-- The effects of a change of the events that are watched.
abbrev pub watches : Demultiplex → ℕ → ℕ → List Effect
watches d fd events =
    tell false dmp_modify (record { event_type = dmp_modify; body = modify_ctx fd events }) d
    ++ (epoll_mod d.dmpfd fd events ∷ [])

-- What `enable_write` and `disable_write` do with a context of the class that they expect.
pub enable_write_lem :
    (d : Demultiplex) (ch : Channel) (t : PubType) (fd events : ℕ)
    → enable_write (record { event_type = t; body = modify_ctx fd events }) d ch
      ≡ ok (watches d ch.socket (bit_or events writable))
unfolding enable_write demultiplex_modify
enable_write_lem d ch t fd events = refl

-- With the context of a connection, a `DmpRegisterContext`, `disable_write` follows a null pointer.
pub disable_write-register_ctx :
    (d : Demultiplex) (ch : Channel) (ctx : Context) {fd events : ℕ} {dmp : Option ℕ}
    → ctx.body ≡ register_ctx fd events dmp
    → disable_write ctx d ch ≡ err undefined
unfolding disable_write
disable_write-register_ctx d ch ctx e = ground arith

-- What a channel that leaves is heard to do.
abbrev pub leaves : Demultiplex → ℕ → List Effect
leaves d fd =
    tell false dmp_delete (record { event_type = dmp_delete; body = delete_ctx fd }) d
    ++ (epoll_del d.dmpfd fd ∷ [])

pub leave_lem :
    (d : Demultiplex) (ch : Channel)
    → leave d ch ≡ ok (record ch { left = true }, leaves d ch.socket)
unfolding leave demultiplex_remove
leave_lem d ch = refl

-- A channel that has left does nothing when it ends.
pub destroy_left : (d : Demultiplex) (ch : Channel) → ch.left ≡ true → destroy d ch ≡ ok []
unfolding destroy
destroy_left d ch h = ground arith

pub destroy_ends : (d : Demultiplex) (ch : Channel) → (es : List Effect) × (destroy d ch ≡ ok es)
unfolding destroy
destroy_ends d ch = elim (Bool-cases ch.left) [
  | inl gone ↦ ([], rw gone refl)
  | inr here ↦ (leaves d ch.socket, rw (here, leave_lem d ch) refl)
]
