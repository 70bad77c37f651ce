-- ===== src/Netdiag/Verdict/Healthy.antt =====
-- A triage that is healthy without a reading of its ping.
use pantau.Common.{◌≡◌, false, none, arith}
use pantau.Common.Text.{Text, codes, teq, trim_space}
use pantau.Netdiag.Parsers.{GoLib, is_private}
use pantau.Netdiag.Outputs.{parse_ping, parse_route}
use pantau.Netdiag.Request.{TriageRequest, is_explicit}
use pantau.Netdiag.Verdict.{
  Command, check_port_80, ping, HostLoad, is_saturated, all_healthy, verdict_of, probe, resolved_ip,
}

-- A public target whose ping prints no statistics, as when the network is unreachable, is judged
-- healthy on a host that is not saturated and has no web server: the verdict reads the loss alone,
-- which is then 0.
pub unread_ping_healthy :
    (g : GoLib) (exec : Command → Text) (h : HostLoad) (r : TriageRequest)
    → g.ping_stats (exec (ping (resolved_ip g exec r.target_address))) ≡ none
    → g.ping_rtt (exec (ping (resolved_ip g exec r.target_address))) ≡ none
    → is_private g (resolved_ip g exec r.target_address) ≡ false
    → is_saturated g h ≡ false
    → is_explicit (trim_space r.app_endpoint) ≡ false
    → teq (trim_space (exec check_port_80)) (codes "OPEN") ≡ false
    → verdict_of (probe g exec h r) ≡ all_healthy
unfolding verdict_of probe parse_ping parse_route teq
unread_ping_healthy g exec h r stats rtt pub_ip sat expl closed =
    rw (verdict_of, probe, parse_ping, parse_route, stats, rtt, pub_ip, sat, expl, closed)
      (ground arith)
