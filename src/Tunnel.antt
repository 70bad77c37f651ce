-- ===== src/Tunnel.antt =====
-- internal/web/handlers_tunnel.go: the handler of the web tunnel and its pool of SSH connections.
-- Runners, transports and the proxy, whose code is not here, appear as the numbers of their
-- connections. Times are seconds.
pub mod Reach
pub mod Pool
mod Examples
use pantau.Common.{
  ℕ, zero, suc, ◌+◌, ◌-◌, ◌≡◌, Bool, true, false, not, ◌&&◌, ◌||◌, Option, none, some, List, [],
  ◌∷◌, ◌++◌, ltb, leb, ◌==◌, if◌then◌else◌, length, drop, keep,
}
use pantau.Common.Text.{Text, codes, teq, has_prefix, trim_prefix}
use pantau.Common.Map.{Map, number_key, lookup, store, delete}
use pantau.Common.Int.{ℤ, pos, negsuc}
use pantau.Common.Numerals.{atoi, itoa}

pub record TunnelHost : Type 0 where
  pub id : ℕ
  pub ssh_port : ℕ

-- what stands before the first slash, and what after it, if there is one
unfoldable pub cut_slash : Text → Text × Option Text
cut_slash [] = ([], none)
cut_slash (c ∷ s) =
    let rest = cut_slash s in if c == b'/' then ([], some s) else (c ∷ rest.0, rest.1)

-- a number from 1 on
abbrev pub positive : Option ℤ → ℕ
positive none = 0
positive (some (pos n)) = n
positive (some (negsuc n)) = 0

abbrev pub tunnel_path : Text
tunnel_path = codes "/api/tunnel/"

-- fmt.Sprintf("/api/tunnel/%d/%d", hostID, port)
unfoldable pub path_prefix : ℕ → ℕ → Text
path_prefix host port = tunnel_path ++ itoa host ++ codes "/" ++ itoa port

-- the path that the remote server is asked for
unfoldable pub clean_path : Text → Text → Text
clean_path prefix path =
    let rest = trim_prefix path prefix in
    if teq rest [] || not (has_prefix rest (codes "/")) then b'/' ∷ rest else rest

-- the Location of an answer, so that it stays below the tunnel
unfoldable pub rewrite_location : Text → Text → Text
rewrite_location prefix loc =
    if not (teq loc []) && (has_prefix loc (codes "/") && not (has_prefix loc prefix))
    then prefix ++ loc
    else loc

pub data TunnelError : Type 0 where
  missing_parts bad_route bad_host_id bad_port no_host ssh_port_prohibited : TunnelError

pub data Route : Type 0 where
  refused : TunnelError → Route
  redirects : Text → Route
  proxied : TunnelHost → ℕ → Text → Route

-- the two parts of the path, and whether both are there
unfoldable pub route_parts : Text → Option (Text × Text)
unfolding cut_slash
route_parts tail =
    let first = cut_slash tail in
    elim first.1 [
      | none ↦ none
      | some rest ↦
          if teq first.0 [] || teq (cut_slash rest).0 []
          then none
          else some (first.0, (cut_slash rest).0)
    ]

-- the checks on a host and a port
unfoldable pub route_to : (ℕ → Option TunnelHost) → Text → Text → ℕ → ℕ → Route
unfolding path_prefix clean_path
route_to get_host path query host port =
    let prefix = path_prefix host port in
    if host == 0
    then refused bad_host_id
    else if ltb port 1 || ltb 65535 port
    then refused bad_port
    else if teq path prefix
    then redirects (prefix ++ codes "/" ++ (if not (teq query []) then codes "?" ++ query else []))
    else elim (get_host host) [
      | none ↦ refused no_host
      | some h ↦
          if port == h.ssh_port
          then refused ssh_port_prohibited
          else proxied h port (clean_path prefix path)
    ]

-- handleTunnel, up to the proxy
unfoldable pub handle_tunnel : (ℕ → Option TunnelHost) → Text → Text → Route
unfolding route_parts route_to
handle_tunnel get_host path query =
    let tail = trim_prefix path tunnel_path in
    if teq tail [] || teq tail (codes "/") then refused missing_parts else elim (route_parts tail) [
      | none ↦ refused bad_route
      | some (host, port) ↦
          route_to get_host path query (positive (atoi host)) (positive (atoi port))
    ]
