-- ===== src/Tunnel/Pool.antt =====
-- The pool of tunnel connections in internal/web/handlers_tunnel.go, as steps of any interleaving of
-- requests. A connection is a number; the list of those that are open is kept beside the pool.
pub mod Lost
use pantau.Common.{
  ℕ, zero, suc, ◌+◌, ◌-◌, Bool, true, false, not, Option, none, some, List, [], ◌∷◌, leb, ◌==◌,
  if◌then◌else◌, keep,
}
use pantau.Common.Map.{Map, number_key, lookup, store, delete}

pub record TunnelEntry : Type 0 where
  pub runner : ℕ
  pub last_used : ℕ

pub record Pool : Type 0 where
  pub tunnel_runners : Map ℕ TunnelEntry
  pub opened : List ℕ
  pub next_runner : ℕ

-- runner.Close
abbrev pub close_runner : ℕ → List ℕ → List ℕ
close_runner r rs = keep (λ q. not (q == r)) rs

-- evictTunnelRunner
unfoldable pub evict : ℕ → Pool → Pool
evict host p = elim (lookup host p.tunnel_runners) [
  | none ↦ p
  | some e ↦ record p {
    tunnel_runners = delete host p.tunnel_runners;
    opened = close_runner e.runner p.opened;
  }
]

-- the connection of a request: GetRunnerForHost
unfoldable pub connect : Pool → Pool
connect p = record p { opened = p.next_runner ∷ p.opened; next_runner = suc p.next_runner }

-- the end of getTunnelTransport: the entry of the host is stored, whatever is there
unfoldable pub store_runner : ℕ → ℕ → ℕ → Pool → Pool
store_runner host runner now p = record p {
  tunnel_runners = store host (record { runner = runner; last_used = now }) p.tunnel_runners;
}

-- the start of getTunnelTransport: an entry that is there is used
unfoldable pub use_entry : ℕ → ℕ → Pool → Pool
use_entry host now p = elim (lookup host p.tunnel_runners) [
  | none ↦ p
  | some e ↦ record p {
    tunnel_runners = store host (record e { last_used = now }) p.tunnel_runners;
  }
]

-- a dial that fails: the entry is evicted and a fresh connection takes its place
unfoldable pub redial : ℕ → ℕ → Pool → Pool
unfolding evict connect store_runner
redial host now p = let q = evict host p in store_runner host q.next_runner now (connect q)

-- one entry of ReapIdleTunnelRunners
unfoldable pub reap_host : ℕ → ℕ → ℕ → Pool → Pool
unfolding evict
reap_host max_idle now host p = elim (lookup host p.tunnel_runners) [
  | none ↦ p
  | some e ↦ if leb max_idle (now - e.last_used) then evict host p else p
]

abbrev pub hosts_of : Map ℕ TunnelEntry → List ℕ
hosts_of [] = []
hosts_of ((h, e) ∷ m) = h ∷ hosts_of m

unfoldable pub reap_hosts : ℕ → ℕ → List ℕ → Pool → Pool
unfolding reap_host
reap_hosts max_idle now [] p = p
reap_hosts max_idle now (h ∷ hs) p = reap_hosts max_idle now hs (reap_host max_idle now h p)

-- ReapIdleTunnelRunners
unfoldable pub reap_idle : ℕ → ℕ → Pool → Pool
unfolding reap_hosts
reap_idle max_idle now p = reap_hosts max_idle now (hosts_of p.tunnel_runners) p
