-- ===== src/Main/Ports.antt =====
-- Which port is taken.
use pantau.Common.{
  leb, ℕ, zero, suc, ◌+◌, ◌≤◌, ◌<◌, ◌≡◌, ◌⊎◌, refl, true, false, arith, Bool-cases, inl, inr,
}
use pantau.Common.Text.{Text}
use pantau.Main.{
  Sockets, try_listen, Listening, bound, port_in_use, all_in_use, scan_ports, listen_host_port,
}

-- The result is the first free port of the `n` from `port`, or that there is none.
abbrev pub IsFirstFree : Sockets → Text → ℕ → ℕ → Listening → Type 0
IsFirstFree s host n port r =
    ((p : ℕ) × (r ≡ bound p)
      × (port ≤ p)
      × (p < port + n)
      × (try_listen s host p ≡ true)
      × ((q : ℕ) → port ≤ q → q < p → try_listen s host q ≡ false))
    ⊎ ((r ≡ all_in_use) × ((q : ℕ) → port ≤ q → q < port + n → try_listen s host q ≡ false))

-- A busy port before busy ports.
busy_before :
    (s : Sockets) (host : Text) (port u : ℕ)
    → try_listen s host port ≡ false
    → ((q : ℕ) → suc port ≤ q → q < u → try_listen s host q ≡ false)
    → (q : ℕ) → port ≤ q
    → q < u
    → try_listen s host q ≡ false
busy_before s host port u f all q l b = elim (Bool-cases (leb (suc port) q)) [
  | inl t ↦ all q (ground arith) b
  | inr n ↦ let e : port ≡ q = ground arith in cc
]

scan_ports-IsFirstFree :
    (s : Sockets) (host : Text) (n port : ℕ) → IsFirstFree s host n port (scan_ports s host n port)
unfolding scan_ports
scan_ports-IsFirstFree s host zero port = inr (refl, λ q l u. ground arith)
scan_ports-IsFirstFree s host (suc n) port = elim (Bool-cases (try_listen s host port)) [
  | inl t ↦ inl (port, rw (t) refl, ground arith, ground arith, t, λ q l u. ground arith)
  | inr f ↦ elim (scan_ports-IsFirstFree s host n (suc port)) [
    | inl (p, e, l, u, t, first) ↦
        inl (p, rw (f) e, ground arith, ground arith, t, busy_before s host port p f first)
    | inr (e, all) ↦
        inr (rw (f) e, busy_before s host port (port + suc n) f (λ q l b. all q l (ground arith)))
  ]
]

-- A port that was not asked for by name is the first free one of the twenty from it, if there is one; a
-- port that was asked for is the one that is taken, and where it is not free no other is tried.
pub listen_host_port-IsFirstFree :
    (s : Sockets) (host : Text) (port : ℕ)
    → IsFirstFree s host 20 port (listen_host_port s host port false)
      × (((try_listen s host port ≡ true) × (listen_host_port s host port true ≡ bound port))
          ⊎ ((try_listen s host port ≡ false) × (listen_host_port s host port true ≡ port_in_use)))
unfolding listen_host_port
listen_host_port-IsFirstFree s host port = (scan_ports-IsFirstFree s host 20 port, ground arith)
