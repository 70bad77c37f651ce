-- ===== src/Tunnel/Examples.antt =====
-- Tunnels at concrete inputs.
use pantau.Common.{ℕ, ◌≡◌, refl, Bool, true, Option, none, some, List, [], ◌∷◌, All}
use pantau.Common.Text.{Text, codes}
use pantau.Tunnel.{TunnelHost, proxied, redirects, handle_tunnel, rewrite_location, path_prefix}
use pantau.Tunnel.Reach.{IsAllowed, handle_tunnel-IsAllowed}
use pantau.Tunnel.Pool.{Pool}
use pantau.Tunnel.Pool.Lost.{
  is_open, PoolEvent, reaps, evicts, redials, happen_all, race, raced_stays_open,
}

abbrev web_host : TunnelHost
web_host = record { id = 3; ssh_port = 22 }

abbrev get_host : ℕ → Option TunnelHost
get_host id = some web_host

handle_tunnel-IsAllowed_example :
    IsAllowed get_host (codes "/api/tunnel/3/8080/a/b") web_host 8080 (codes "/a/b")
unfolding handle_tunnel pantau.Common.Text.teq pantau.Common.Text.trim_prefix
    pantau.Common.Numerals.atoi pantau.Common.Numerals.itoa
handle_tunnel-IsAllowed_example =
    handle_tunnel-IsAllowed get_host (codes "/api/tunnel/3/8080/a/b") [] web_host 8080
      (codes "/a/b") refl

root_redirects :
    handle_tunnel get_host (codes "/api/tunnel/3/80") (codes "x=1")
    ≡ redirects (codes "/api/tunnel/3/80/?x=1")
unfolding handle_tunnel pantau.Common.Text.teq pantau.Common.Text.trim_prefix
    pantau.Common.Numerals.atoi pantau.Common.Numerals.itoa
root_redirects = refl

-- A number with a leading zero passes, but its path is not cut.
leading_zero_uncut :
    handle_tunnel get_host (codes "/api/tunnel/03/80/a") []
    ≡ proxied web_host 80 (codes "/api/tunnel/03/80/a")
unfolding handle_tunnel pantau.Common.Text.teq pantau.Common.Text.trim_prefix
    pantau.Common.Numerals.atoi pantau.Common.Numerals.itoa
leading_zero_uncut = refl

location_kept :
    rewrite_location (path_prefix 3 80) (codes "/login") ≡ codes "/api/tunnel/3/80/login"
unfolding rewrite_location pantau.Common.Text.teq pantau.Common.Text.has_prefix path_prefix
    pantau.Common.Numerals.itoa
location_kept = refl

abbrev no_runners : Pool
no_runners = record { tunnel_runners = []; opened = []; next_runner = 0 }

abbrev later : List PoolEvent
later = reaps 180 100000 ∷ evicts 3 ∷ redials 3 100010 ∷ evicts 3 ∷ []

raced_stays_open_example :
    is_open 0 (happen_all later (happen_all (race 3 10 no_runners) no_runners)).opened ≡ true
unfolding pantau.Tunnel.Pool.Lost.has_runner
raced_stays_open_example = raced_stays_open 3 10 no_runners later refl (tt, (tt, (tt, (tt, tt))))
