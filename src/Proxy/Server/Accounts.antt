-- ===== src/Proxy/Server/Accounts.antt =====
-- The traffic of a client, and its limit, in src/proxy/proxy_server.cc.
use rproxy.Base.{
  ℕ, ◌+◌, ◌%◌, ◌^◌, ◌<◌, Bool, true, false, ◌≡◌, refl, sym, ap, ◌∙◌, Option, none, some, List, leb,
  ltb, arith, if◌then◌else◌, Result, ok, Bool-cases, inl, inr, size_mod,
}
use rproxy.Base.Eq.{same, text_eq, list_beq_iff, nat_eq}
use rproxy.Base.Maps.{find}
use rproxy.Network.Addr.{to_string}
use rproxy.Pubsub.Center.{Center, account, is_limited}
use rproxy.Pubsub.Center.Traffic.{find-account, is_limited_lem}
use rproxy.Proxy.Server.{ProxyServer, Kernel, count, zero_copy, copy_and_account, pass_on}
use rproxy.Proxy.Server.Pipe.{Moves}
use rproxy.Proxy.Server.Pairs.{KernelLaws}
use rproxy.Proxy.Server.Open.{zero_copy-Returns}

-- The account of the address grows by `n`, modulo 2^64, from `v`, and no other changes.
abbrev pub Grows : List ℕ → ℕ → ℕ → Center → Center → Type 0
Grows addr v n c c' =
    (a : List ℕ)
    → find a c'.traffic ≡ (if same addr a then some ((v + n) % size_mod) else find a c.traffic)

-- What passing a client's bytes on to `sock` does, by the account that its address has: nothing,
-- where there is none or it has reached 2^63; else the bytes are moved and counted.
module _ {S : Type 0} (k : Kernel S) where
  abbrev pub Moved : ℕ → ℕ → List ℕ → ℕ → ProxyServer → S → Result (ProxyServer × S) → Type 0
  Moved incoming sock addr v p s r =
      (total : Option ℕ) × (sent : List ℕ) × (pipe' : List ℕ) × (s' : S) × (c' : Center)
      × (zero_copy k incoming sock p.pipe s ≡ ok (total, sent, pipe', s'))
      × (r ≡ ok (record p { pipe = pipe'; center = c' }, s'))
      × Grows addr v (count total) p.center c'

  abbrev pub Accounts :
      Option ℕ → ℕ → ℕ → List ℕ → ProxyServer → S → Result (ProxyServer × S) → Type 0
  Accounts none incoming sock addr p s r = r ≡ ok (p, s)
  Accounts (some v) incoming sock addr p s r =
      if leb (2 ^ 63) v then r ≡ ok (p, s) else Moved incoming sock addr v p s r

account-Grows :
    (addr : List ℕ) (v n : ℕ) (c : Center)
    → find addr c.traffic ≡ some v
    → Grows addr v n c (account addr n c)
account-Grows addr v n c known a = ground (arith, find-account a addr n c, known)

still-Grows :
    (addr : List ℕ) (v n : ℕ) (c : Center)
    → find addr c.traffic ≡ some v
    → v < size_mod
    → ltb 0 n ≡ false
    → Grows addr v n c c
still-Grows addr v n c known small nothing a = elim (Bool-cases (same addr a)) [
  | inl here ↦ rw here (
      ap (λ b. find b c.traffic) (sym ((list_beq_iff addr a).0 here))
      ∙ known
      ∙ ap some (whole (ground arith)))
  | inr there ↦ rw there refl
]
  where
    whole : n ≡ 0 → v ≡ (v + n) % size_mod
    whole e = omega arith

module _ {S : Type 0} (k : Kernel S) (is_open : ℕ → S → Bool) (laws : KernelLaws k is_open)
    (moves : Moves k) where
  copy_and_account-Moved :
      (incoming sock : ℕ) (addr : List ℕ) (v : ℕ) (p : ProxyServer) (s : S)
      → find addr p.center.traffic ≡ some v
      → v < size_mod
      → Moved k incoming sock addr v p s (copy_and_account k addr incoming sock p s)
  unfolding copy_and_account
  copy_and_account-Moved incoming sock addr v p s known small =
      let (total, sent, pipe', s', run, same_open) =
        zero_copy-Returns k is_open laws incoming sock p.pipe s moves in
      (
        total,
        sent,
        pipe',
        s',
        (if ltb 0 (count total) then account addr (count total) p.center else p.center),
        run,
        rw run refl,
        elim (Bool-cases (ltb 0 (count total))) [
          | inl more ↦ rw more (account-Grows addr v (count total) p.center known)
          | inr none' ↦ rw none' (still-Grows addr v (count total) p.center known small none')
        ],
      )

  by_account :
      (o : Option ℕ) (incoming sock : ℕ) (p : ProxyServer) (s : S)
      → find incoming p.reversed_map ≡ some sock
      → find (to_string (k.peer incoming s)) p.center.traffic ≡ o
      → Accounts k o incoming sock (to_string (k.peer incoming s)) p s (pass_on k incoming p s)
  unfolding pass_on
  by_account none incoming sock p s known e = rw (pass_on, known, limited) refl
    where
      limited : is_limited (to_string (k.peer incoming s)) p.center ≡ true
      limited = ground (arith, is_limited_lem (to_string (k.peer incoming s)) p.center, e)
  by_account (some v) incoming sock p s known e = elim (Bool-cases (leb (2 ^ 63) v)) [
    | inl full ↦ rw full (rw (pass_on, known, test ∙ full) refl)
    | inr free ↦ rw free (
        rw (pass_on, known, test ∙ free)
          (copy_and_account-Moved incoming sock (to_string (k.peer incoming s)) v p s e
            (ground (arith, free))))
  ]
    where
      test : is_limited (to_string (k.peer incoming s)) p.center ≡ leb (2 ^ 63) v
      test = ground (arith, is_limited_lem (to_string (k.peer incoming s)) p.center, e)

  -- What `updateForForward` does with a client that has the backend `sock`, by the account of the
  -- client's address: where there is none, or it has reached 2^63, nothing is moved and nothing
  -- changes. Otherwise `zeroCopy` moves bytes to the backend, the account grows by the number that it
  -- answers, modulo 2^64, and the other accounts stay.
  pub pass_on-Accounts :
      (incoming sock : ℕ) (p : ProxyServer) (s : S)
      → find incoming p.reversed_map ≡ some sock
      → Accounts k
          (find (to_string (k.peer incoming s)) p.center.traffic)
          incoming
          sock
          (to_string (k.peer incoming s))
          p
          s
          (pass_on k incoming p s)
  pass_on-Accounts incoming sock p s known =
      by_account (find (to_string (k.peer incoming s)) p.center.traffic) incoming sock p s known
        refl
