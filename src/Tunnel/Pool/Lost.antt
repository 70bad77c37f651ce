-- ===== src/Tunnel/Pool/Lost.antt =====
-- A connection that loses its place in the pool.
use pantau.Common.{
  ℕ, suc, ◌-◌, ◌<◌, ◌≡◌, refl, Bool, true, false, ◌||◌, some, List, [], ◌∷◌, arith, leb, ◌==◌,
  some_of, inl, inr, Option-cases, Bool-cases, All,
}
use pantau.Common.Map.{Map, number_key, lookup, store, delete}
use pantau.Tunnel.Pool.{
  TunnelEntry, Pool, close_runner, evict, connect, store_runner, use_entry, redial, reap_host,
  hosts_of, reap_hosts, reap_idle,
}

-- Some entry has this connection.
unfoldable pub has_runner : ℕ → Map ℕ TunnelEntry → Bool
has_runner r [] = false
has_runner r ((h, e) ∷ m) = e.runner == r || has_runner r m

abbrev pub is_open : ℕ → List ℕ → Bool
is_open r rs = some_of (λ q. q == r) rs

-- It is open, no entry has it, and it is none that is still to come.
abbrev pub IsLost : ℕ → Pool → Type 0
IsLost r p =
    (is_open r p.opened ≡ true) × (has_runner r p.tunnel_runners ≡ false) × (r < p.next_runner)

has_runner-lookup :
    (r h : ℕ) (e : TunnelEntry) (m : Map ℕ TunnelEntry)
    → lookup h m ≡ some e
    → has_runner r m ≡ false
    → (e.runner == r) ≡ false
unfolding has_runner lookup
has_runner-lookup r h e [] f n = ground (arith, f)
has_runner-lookup r h e ((k, d) ∷ m) f n = ground (arith, f, n, has_runner-lookup r h e m)

has_runner-delete :
    (r h : ℕ) (m : Map ℕ TunnelEntry) → has_runner r m ≡ false → has_runner r (delete h m) ≡ false
unfolding has_runner delete
has_runner-delete r h [] n = refl
has_runner-delete r h ((k, d) ∷ m) n = ground (arith, n, has_runner-delete r h m)

is_open-close :
    (r q : ℕ) (rs : List ℕ)
    → (q == r) ≡ false
    → is_open r rs ≡ true
    → is_open r (close_runner q rs) ≡ true
is_open-close r q [] n o = o
is_open-close r q (x ∷ rs) n o = ground (arith, n, o, is_open-close r q rs n)

IsLost-evict : (r h : ℕ) (p : Pool) → IsLost r p → IsLost r (evict h p)
unfolding evict
IsLost-evict r h p l = elim (Option-cases (lookup h p.tunnel_runners)) [
  | inl n ↦ rw (evict, n) l
  | inr (e, f) ↦
      let other = has_runner-lookup r h e p.tunnel_runners f l.1 in
      rw (evict, f)
        (
          is_open-close r e.runner p.opened other l.0,
          has_runner-delete r h p.tunnel_runners l.1,
          l.2,
        )
]

IsLost-store_runner :
    (r h q now : ℕ) (p : Pool) → (q == r) ≡ false → IsLost r p → IsLost r (store_runner h q now p)
unfolding store_runner store has_runner
IsLost-store_runner r h q now p n l =
    (l.0, ground (arith, n, has_runner-delete r h p.tunnel_runners l.1), l.2)

IsLost-connect : (r : ℕ) (p : Pool) → IsLost r p → IsLost r (connect p)
unfolding connect
IsLost-connect r p l = ground (arith, l)

IsLost-use_entry : (r h now : ℕ) (p : Pool) → IsLost r p → IsLost r (use_entry h now p)
unfolding use_entry store has_runner
IsLost-use_entry r h now p l = elim (Option-cases (lookup h p.tunnel_runners)) [
  | inl n ↦ rw (use_entry, n) l
  | inr (e, f) ↦
      let other = has_runner-lookup r h e p.tunnel_runners f l.1 in
      let kept = has_runner-delete r h p.tunnel_runners l.1 in
      rw (use_entry, f) (l.0, ground (arith, other, kept), l.2)
]

IsLost-reap_host :
    (r max_idle now h : ℕ) (p : Pool) → IsLost r p → IsLost r (reap_host max_idle now h p)
unfolding reap_host
IsLost-reap_host r max_idle now h p l =
    let gone = IsLost-evict r h p l in
    elim (Option-cases (lookup h p.tunnel_runners)) [
      | inl n ↦ rw (reap_host, n) l
      | inr (e, f) ↦ elim (Bool-cases (leb max_idle (now - e.last_used))) [
        | inl t ↦ rw (reap_host, f, t) gone
        | inr t ↦ rw (reap_host, f, t) l
      ]
    ]

IsLost-reap_hosts :
    (r max_idle now : ℕ) (hs : List ℕ) (p : Pool)
    → IsLost r p
    → IsLost r (reap_hosts max_idle now hs p)
unfolding reap_hosts
IsLost-reap_hosts r max_idle now [] p l = l
IsLost-reap_hosts r max_idle now (h ∷ hs) p l =
    IsLost-reap_hosts r max_idle now hs (reap_host max_idle now h p)
      (IsLost-reap_host r max_idle now h p l)

-- What requests and the reaper do. A request stores the connection that it has opened itself, so that
-- a connection is stored by `stores` only before it is lost.
pub data PoolEvent : Type 0 where
  uses : ℕ → ℕ → PoolEvent
  connects : PoolEvent
  stores : ℕ → ℕ → ℕ → PoolEvent
  evicts : ℕ → PoolEvent
  redials : ℕ → ℕ → PoolEvent
  reaps : ℕ → ℕ → PoolEvent

unfoldable pub happen : PoolEvent → Pool → Pool
happen (uses h now) p = use_entry h now p
happen connects p = connect p
happen (stores h q now) p = store_runner h q now p
happen (evicts h) p = evict h p
happen (redials h now) p = redial h now p
happen (reaps max_idle now) p = reap_idle max_idle now p

unfoldable pub happen_all : List PoolEvent → Pool → Pool
unfolding happen
happen_all [] p = p
happen_all (e ∷ es) p = happen_all es (happen e p)

-- The request of this connection has stored it already.
abbrev pub LeavesAlone : ℕ → PoolEvent → Type 0
LeavesAlone r (stores h q now) = (q == r) ≡ false
LeavesAlone r (uses h now) = Unit
LeavesAlone r connects = Unit
LeavesAlone r (evicts h) = Unit
LeavesAlone r (redials h now) = Unit
LeavesAlone r (reaps max_idle now) = Unit

IsLost-happen :
    (r : ℕ) (e : PoolEvent) (p : Pool) → LeavesAlone r e → IsLost r p → IsLost r (happen e p)
unfolding happen redial reap_idle
IsLost-happen r (uses h now) p a l = IsLost-use_entry r h now p l
IsLost-happen r connects p a l = IsLost-connect r p l
IsLost-happen r (stores h q now) p a l = IsLost-store_runner r h q now p a l
IsLost-happen r (evicts h) p a l = IsLost-evict r h p l
IsLost-happen r (reaps max_idle now) p a l =
    IsLost-reap_hosts r max_idle now (hosts_of p.tunnel_runners) p l
IsLost-happen r (redials h now) p a l =
    let left = IsLost-evict r h p l in
    let fresh : ((evict h p).next_runner == r) ≡ false = ground (arith, left.2) in
    IsLost-store_runner r h (evict h p).next_runner now (connect (evict h p)) fresh
      (IsLost-connect r (evict h p) left)

IsLost-happen_all :
    (r : ℕ) (es : List PoolEvent) (p : Pool)
    → All (LeavesAlone r) es
    → IsLost r p
    → IsLost r (happen_all es p)
unfolding happen_all
IsLost-happen_all r [] p a l = l
IsLost-happen_all r (e ∷ es) p a l =
    IsLost-happen_all r es (happen e p) a.1 (IsLost-happen r e p a.0 l)

-- Two requests that both find no entry for a host and connect at the same time.
abbrev pub race : ℕ → ℕ → Pool → List PoolEvent
race h now p =
    connects ∷ connects ∷ stores h p.next_runner now ∷ stores h (suc p.next_runner) now ∷ []

race-IsLost :
    (h now : ℕ) (p : Pool)
    → has_runner p.next_runner p.tunnel_runners ≡ false
    → IsLost p.next_runner (happen_all (race h now p) p)
unfolding happen_all happen connect store_runner store has_runner delete
race-IsLost h now p n =
    let once = has_runner-delete p.next_runner h p.tunnel_runners n in
    let twice = has_runner-delete p.next_runner h (delete h p.tunnel_runners) once in
    (ground arith, ground (arith, twice), ground arith)

-- Where two requests for one host connect at the same time, the connection of the first is never closed
-- again: neither the reaper nor an eviction nor a new dial finds it in the pool, whatever happens later
-- but for a request that stores it once more.
pub raced_stays_open :
    (h now : ℕ) (p : Pool) (later : List PoolEvent)
    → has_runner p.next_runner p.tunnel_runners ≡ false
    → All (LeavesAlone p.next_runner) later
    → is_open p.next_runner (happen_all later (happen_all (race h now p) p)).opened ≡ true
raced_stays_open h now p later n a =
    (IsLost-happen_all p.next_runner later (happen_all (race h now p) p) a
      (race-IsLost h now p n)).0
