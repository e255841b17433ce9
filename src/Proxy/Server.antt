-- ===== src/Proxy/Server.antt =====
-- src/proxy/proxy_server.hpp and proxy_server.cc: `ProxyServer`, as it is built without MSG_ATTACH.
-- What is printed is left out, and so is `setNonBlocking`.
pub mod Pipe
pub mod Pairs
pub mod Open
pub mod Outcome
pub mod Forward
pub mod Wait
pub mod Slow
pub mod Sockets
pub mod Twice
pub mod Strays
pub mod Quiet
pub mod Accounts
mod Tests
use rproxy.Base.{
  ℕ, zero, suc, ◌+◌, ◌-◌, Bool, true, not, ◌&&◌, Option, none, some, List, [], ◌∷◌, ◌++◌, length,
  take, drop, ltb, if◌then◌else◌, Result, ok, err, ◌>>=◌, undefined, out_of_range, endless,
}
use rproxy.Base.Eq.{nat_eq}
use rproxy.Base.Maps.{find, has_key, emplace, erase}
use rproxy.Network.Addr.{InetAddr, to_string}
use rproxy.Network.Demultiplex.{Effect, closes, readable, closable, meets}
use rproxy.Network.Group.{Group, register_fd}
use rproxy.Pubsub.Event.{Context, Resp, wait_ctx, forward_ctx, dmp_wait, forward}
use rproxy.Pubsub.Center.{Center, account, is_limited}

-- `sock_map_` leads from a backend's descriptor to the client's, and `reversed_map_` back. `pipe` is
-- what the kernel holds between `pipe_[1]` and `pipe_[0]`, and `effects` what it was asked to do so
-- far.
pub record ProxyServer : Type 0 where
  pub sock_map : List (ℕ × ℕ)
  pub reversed_map : List (ℕ × ℕ)
  pub pipe : List ℕ
  pub group : Group
  pub center : Center
  pub effects : List Effect
  pub stopped : Bool

-- The system calls, on a state of the kernel. `splice_in fd` gives the bytes that went into the pipe,
-- or `none` for -1; `splice_out fd bytes` the number of those bytes that left it, or `none` for -1.
pub record Kernel (S : Type 0) : Type 0 where
  pub splice_in : ℕ → S → Option (List ℕ) × S
  pub splice_out : ℕ → List ℕ → S → Option ℕ × S
  pub connect : InetAddr → S → Result (ℕ × S)
  pub close : ℕ → S → S
  pub peer : ℕ → S → InetAddr

-- `at(key)`
abbrev pub at_key {ℓ} : {A : Type ℓ} → Option A → Result A
at_key none = err out_of_range
at_key (some a) = ok a

-- -1 as no bytes
abbrev pub count : Option ℕ → ℕ
count none = 0
count (some n) = n

-- The result of `zeroCopy`, the bytes that reached `out_fd`, what the pipe holds, and the kernel.
abbrev pub Copied : Type 0 → Type 0
Copied S = Option ℕ × List ℕ × List ℕ × S

-- `bytes` reached `out_fd` before the rest of the loop.
abbrev pub sent_first : {S : Type 0} → List ℕ → Copied S → Copied S
sent_first bytes (total, sent, pipe, s) = (total, bytes ++ sent, pipe, s)

-- The new socket enters both maps, and is registered again.
pub remember : ℕ → ℕ → ProxyServer → Result ProxyServer
remember incoming sock p = do
  (group', added) ← register_fd sock p.group
  ok (record p {
    sock_map = emplace sock incoming p.sock_map;
    reversed_map = emplace incoming sock p.reversed_map;
    group = group';
    effects = p.effects ++ added;
  })

module _ {S : Type 0} (k : Kernel S) where
  -- `while (len > 0)`, on fuel.
  unfoldable pub copy_loop : ℕ → ℕ → ℕ → ℕ → List ℕ → S → Result (Copied S)
  copy_loop fuel zero total out pipe s = ok (some total, [], pipe, s)
  copy_loop zero (suc len) total out pipe s = err endless
  copy_loop (suc fuel) (suc len) total out pipe s =
      let (slen, s') = k.splice_out out (take (suc len) pipe) s in
      elim slen [
        | none ↦ ok (some total, [], pipe, s')
        | some n ↦ copy_loop fuel (suc len - n) (total + n) out (drop n pipe) s' >>= λ copied.
            ok (sent_first (take n pipe) copied)
      ]

  -- `zeroCopy`
  unfoldable pub zero_copy : ℕ → ℕ → List ℕ → S → Result (Copied S)
  zero_copy in_fd out_fd pipe s =
      let (got, s') = k.splice_in in_fd s in
      elim got [
        | none ↦ ok (none, [], pipe, s')
        | some bytes ↦ copy_loop (length bytes) (length bytes) 0 out_fd (pipe ++ bytes) s'
      ]

  -- `establishWith`
  pub establish_with : InetAddr → ProxyServer → S → Result (ℕ × ProxyServer × S)
  establish_with addr p s = do
    (sock, s') ← k.connect addr s
    (group', added) ← register_fd sock p.group
    ok (sock, record p { group = group'; effects = p.effects ++ added }, s')

  -- `zeroCopy(incoming, sock)`, and the account of what it moved.
  pub copy_and_account : List ℕ → ℕ → ℕ → ProxyServer → S → Result (ProxyServer × S)
  copy_and_account addr incoming sock p s = do
    (bytes, sent, pipe', s') ← zero_copy incoming sock p.pipe s
    let center' = if ltb 0 (count bytes) then account addr (count bytes) p.center else p.center
    ok (record p { pipe = pipe'; center = center' }, s')

  -- What `updateForForward` does with a client that has a backend.
  pub pass_on : ℕ → ProxyServer → S → Result (ProxyServer × S)
  pass_on incoming p s = do
    sock ← at_key (find incoming p.reversed_map)
    let addr = to_string (k.peer incoming s)
    let copied = copy_and_account addr incoming sock p s
    (if is_limited addr p.center then ok (p, s) else copied)

  -- `if (sock < 0) continue;` and what follows it.
  pub connected : ℕ → ℕ → ProxyServer → S → Result (ProxyServer × S)
  connected incoming sock p s =
      let going = remember incoming sock p >>= λ p'. pass_on incoming p' s in
      if ltb sock 0 then ok (p, s) else going

  -- One round of the loop of `updateForForward`.
  pub forward_one : ℕ → InetAddr → ProxyServer → S → Result (ProxyServer × S)
  forward_one incoming addr p s =
      if has_key incoming p.reversed_map
      then pass_on incoming p s
      else do (sock, p', s') ← establish_with addr p s; connected incoming sock p' s'

  -- `updateForForward`
  pub update_for_forward : List (ℕ × InetAddr) → ProxyServer → S → Result (ProxyServer × S)
  update_for_forward [] p s = ok (p, s)
  update_for_forward ((incoming, addr) ∷ rest) p s = do
    (p', s') ← forward_one incoming addr p s
    update_for_forward rest p' s'

  -- What `updateForWait` does with an event that closes the backend's socket.
  pub close_backend : ℕ → ProxyServer → S → ProxyServer × S
  close_backend fd p s =
      let p' = record p { effects = p.effects ++ (closes fd ∷ []) } in
      elim (find fd p.sock_map) [
        | none ↦ (p', k.close fd s)
        | some client ↦ (
          record p' { reversed_map = erase client p.reversed_map; sock_map = erase fd p.sock_map },
          k.close fd s,
        )
      ]

  -- Bytes of the backend go to its client.
  pub answer_client : ℕ → ℕ → ProxyServer → S → Result (ProxyServer × S)
  answer_client fd client p s = do
    (bytes, sent, pipe', s') ← zero_copy fd client p.pipe s
    ok (record p { pipe = pipe' }, s')

  -- One round of the loop of `updateForWait`.
  pub wait_one : Resp → ProxyServer → S → Result (ProxyServer × S)
  wait_one r p s = do
    client ← at_key (find r.fd p.sock_map)
    let answered = answer_client r.fd client p s
    (p', s') ←
        (if meets r.events readable && not (meets r.events closable) then answered else ok (p, s))
    ok (if meets r.events closable then close_backend r.fd p' s' else (p', s'))

  -- `updateForWait`
  pub update_for_wait : List Resp → ProxyServer → S → Result (ProxyServer × S)
  update_for_wait [] p s = ok (p, s)
  update_for_wait (r ∷ rest) p s = do (p', s') ← wait_one r p s; update_for_wait rest p' s'

  -- `update`: the cast of the context to another class gives a null pointer.
  pub update : Context → ProxyServer → S → Result (ProxyServer × S)
  update ctx p s = elim ctx.event_type [
    | dmp_wait ↦ elim ctx.body [ wait_ctx resps ↦ update_for_wait resps p s | _ ↦ err undefined ]
    | forward ↦ elim ctx.body [
      | forward_ctx socks ↦ update_for_forward socks p s
      | _ ↦ err undefined
    ]
    | _ ↦ ok (p, s)
  ]

-- `stop`
pub stop : ProxyServer → ProxyServer
stop p = record p { stopped = true }
