-- ===== src/Tunnel/Reach.antt =====
-- Where a tunnel leads.
use pantau.Common.{
  ap, ◌∙◌, some, ◌++◌, sym, ℕ, ◌≤◌, ◌≡◌, ◌≢◌, refl, false, not, ◌||◌, Option, [], ◌∷◌, arith, ◌==◌,
  inl, inr, Option-cases, Bool-cases,
}
use mathlib.Core.Path.{subst}
use pantau.Common.Text.{Text, codes, teq, has_prefix, trim_prefix}
use pantau.Common.Numerals.{atoi}
use pantau.Tunnel.{
  cut_slash, TunnelHost, proxied, positive, path_prefix, clean_path, route_parts, route_to,
  handle_tunnel, tunnel_path,
}

-- A path with a slash in front.
abbrev pub IsRooted : Text → Type 0
IsRooted [] = ⊥
IsRooted (c ∷ s) = c ≡ b'/'

rooted : (s : Text) → (teq s [] || not (has_prefix s (codes "/"))) ≡ false → IsRooted s
unfolding teq has_prefix
rooted [] h = ground (arith, h)
rooted (c ∷ s) h = ground (arith, h)

clean_path-IsRooted : (prefix path : Text) → IsRooted (clean_path prefix path)
unfolding clean_path
clean_path-IsRooted prefix path =
    let rest = trim_prefix path prefix in
    elim (Bool-cases (teq rest [] || not (has_prefix rest (codes "/")))) [
      | inl t ↦ rw (clean_path, t) refl
      | inr f ↦ rw (clean_path, f) (rooted rest f)
    ]

-- What may follow the port in a path: nothing, or a slash and more.
abbrev pub IsRest : Text → Type 0
IsRest [] = Unit
IsRest (c ∷ s) = c ≡ b'/'

-- What stands before the first slash, and the rest from the slash on.
cut_slash_parts :
    (s : Text)
    → (rest : Text) × (s ≡ (cut_slash s).0 ++ rest)
      × IsRest rest
      × ((t : Text) → (cut_slash s).1 ≡ some t → rest ≡ b'/' ∷ t)
unfolding cut_slash
cut_slash_parts [] = ([], refl, tt, λ t e. ground (arith, e))
cut_slash_parts (c ∷ s) = elim (Bool-cases (c == b'/')) [
  | inl slash ↦
      let first : c ≡ b'/' = ground (arith, slash) in
      (c ∷ s, rw (slash) refl, first, λ t e. ground (arith, slash, e))
  | inr other ↦
      let more = cut_slash_parts s in
      (
        more.0,
        rw (other) (ap (λ t. c ∷ t) more.1),
        more.2,
        λ t e. more.3 t (ground (arith, other, e)),
      )
]

-- A tail of a path that names a host and a port by their texts.
abbrev pub Names : Text → Text → Text → Type 0
Names a b tail = (rest : Text) × (tail ≡ a ++ b'/' ∷ (b ++ rest)) × IsRest rest

route_parts-Names : (tail a b : Text) → route_parts tail ≡ some (a, b) → Names a b tail
unfolding route_parts
route_parts-Names tail a b e = elim (Option-cases (cut_slash tail).1) [
  | inl n ↦ absurd (ground (arith, n, e))
  | inr (after, f) ↦
      let host = cut_slash_parts tail in
      let port = cut_slash_parts after in
      let both : ((cut_slash tail).0 ≡ a) × ((cut_slash after).0 ≡ b) = ground (arith, f, e) in
      let slashed : host.0 ≡ b'/' ∷ after = host.3 after f in
      let named : after ≡ b ++ port.0 = rw (sym both.1) port.1 in (port.0, cc, port.2)
]

-- A request that names this host and this port, a port of the remote machine that is not its SSH port,
-- and a path from the root.
abbrev pub IsAllowed : (ℕ → Option TunnelHost) → Text → TunnelHost → ℕ → Text → Type 0
IsAllowed get_host path h port p =
    (a : Text) × (b : Text) × Names a b (trim_prefix path tunnel_path)
    × (get_host (positive (atoi a)) ≡ some h)
    × (positive (atoi b) ≡ port)
    × (1 ≤ port)
    × (port ≤ 65535)
    × (port ≢ h.ssh_port)
    × IsRooted p

route_to-IsAllowed :
    (get_host : ℕ → Option TunnelHost) (path query a b : Text) (h : TunnelHost) (q : ℕ) (p : Text)
    → Names a b (trim_prefix path tunnel_path)
    → route_to get_host path query (positive (atoi a)) (positive (atoi b)) ≡ proxied h q p
    → IsAllowed get_host path h q p
unfolding route_to
route_to-IsAllowed get_host path query a b h q p names e =
    let host = positive (atoi a) in
    let port = positive (atoi b) in
    elim (Option-cases (get_host host)) [
      | inl n ↦ absurd (ground (arith, e, n))
      | inr (k, f) ↦
          let facts : (1 ≤ port)
              × (port ≤ 65535)
              × ((port == k.ssh_port) ≡ false)
              × (k ≡ h)
              × (port ≡ q)
              × (clean_path (path_prefix host port) path ≡ p) =
            ground (arith, e, f) in
          let root = clean_path-IsRooted (path_prefix host port) path in
          (
            a,
            b,
            names,
            f ∙ ap some facts.3,
            facts.4,
            ground (arith, facts),
            ground (arith, facts),
            λ same. ground (arith, facts, same),
            subst (λ x. IsRooted x) facts.5 root,
          )
    ]

-- Every request that a tunnel lets through goes to the host of the store that its path names, there to
-- the port that its path names, which is from 1 to 65535 and not the host's SSH port, and asks for a
-- path from the root.
pub handle_tunnel-IsAllowed :
    (get_host : ℕ → Option TunnelHost) (path query : Text) (h : TunnelHost) (port : ℕ) (p : Text)
    → handle_tunnel get_host path query ≡ proxied h port p
    → IsAllowed get_host path h port p
unfolding handle_tunnel
handle_tunnel-IsAllowed get_host path query h port p e =
    elim (Option-cases (route_parts (trim_prefix path tunnel_path))) [
      | inl n ↦ absurd (ground (arith, e, n))
      | inr ((a, b), f) ↦
          let routed : route_to get_host path query (positive (atoi a)) (positive (atoi b))
              ≡ proxied h port p =
            ground (arith, e, f) in
          route_to-IsAllowed get_host path query a b h port p
            (route_parts-Names (trim_prefix path tunnel_path) a b f) routed
    ]
