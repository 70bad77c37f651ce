-- ===== src/Netdiag/Runs.antt =====
-- Triages and probes at concrete inputs, with a small stand-in for Go's packages.
use pantau.Common.{
  ℕ, ◌≡◌, ◌↔◌, ◌+◌, ◌-◌, refl, true, false, not, ◌&&◌, none, some, List, [], ◌∷◌, ltb,
  if◌then◌else◌, some_of,
}
use pantau.Common.Text.{Text, codes, teq, contains}
use pantau.Netdiag.{HopInfo}
use pantau.Netdiag.Parsers.{GoLib}
use pantau.Netdiag.Outputs.{parse_dns}
use pantau.Netdiag.Request.{TriageRequest, resolve}
use pantau.Netdiag.Verdict.{
  Command, HostLoad, Findings, all_healthy, TriageVerdict, branch_gateway_down, verdict_of, probe,
  World, sweep,
}
use pantau.Netdiag.Verdict.Healthy.{unread_ping_healthy}
use pantau.Netdiag.Verdict.Guards.{IsSafeTarget, target_of, judged-IsSafeTarget}
use pantau.Netdiag.Auto.{incident, reminder, recovery}
use pantau.Netdiag.Auto.Balance.{Cycle, fresh, run_cycles, IsBalanced, run_cycles-IsBalanced}

-- Two packets of four are received where the output says so; a line of tracepath is its first digit
-- and the reply of 10.0.0.1.
abbrev go : GoLib
go = record {
  tracepath_hop = λ s. elim s [
    | [] ↦ none
    | c ∷ rest ↦ some (
      c ∷ [],
      if contains rest (codes "no reply") then codes "no" else codes "10.0.0.1",
      codes "1.5",
      [],
    )
  ];
  traceroute_hop = λ s. none;
  ping_stats = λ s.
      if contains s (codes "2 received") then some (codes "4", codes "2", codes "50") else none;
  ping_rtt = λ s. none;
  route_dev = λ s. some (codes "eth0");
  route_via = λ s. none;
  route_mtu = λ s. none;
  find_ips = λ s. codes "10.0.0.7" ∷ codes "127.0.0.53" ∷ codes "10.0.0.8" ∷ codes "10.0.0.7" ∷ [];
  parse_float = λ s. if teq s (codes "50") then some 50000000 else some 1500000;
  parse_ip = λ s. if teq s (codes "8.8.8.8") then some false else none;
  parse_url = λ s. none;
}

abbrev idle_host : HostLoad
idle_host = record {
  cpu_load = [];
  ram_used = 1;
  ram_total = 4;
  swap_used = 0;
  swap_total = 0;
  conn_count = 12;
  host_status = codes "up";
}

-- every command fails, as without a network
abbrev unreachable : Command → Text
unreachable c = codes "connect: Network is unreachable"

abbrev request : TriageRequest
request = record {
  source_host_id = 3;
  preset_id = 0;
  target_address = codes "8.8.8.8";
  target_name = [];
  app_endpoint = [];
  baseline_mtu = 0;
  max_latency = 0;
  max_loss = 0;
  db_port = 0;
}

abbrev still_go : GoLib
still_go = record go { parse_float = λ s. none }

abbrev clear : Findings
unfolding probe
clear = probe still_go unreachable idle_host request

unread_ping_healthy_example :
    verdict_of (probe still_go unreachable idle_host request) ≡ all_healthy
unfolding contains teq pantau.Netdiag.Verdict.resolved_ip pantau.Netdiag.Verdict.is_saturated
    pantau.Netdiag.Verdict.cpu_of pantau.Common.Text.trim_space
unread_ping_healthy_example =
    unread_ping_healthy still_go unreachable idle_host request refl refl refl refl refl refl

abbrev world : World
world = record {
  host = some idle_host;
  connects = true;
  preset = none;
  app_setting = [];
  db_setting = [];
  exec = unreachable;
}

abbrev found : Findings
unfolding probe resolve
found = probe still_go unreachable idle_host (resolve none [] [] request)

judged-IsSafeTarget_example : IsSafeTarget (target_of world request)
unfolding pantau.Netdiag.Verdict.execute_triage pantau.Netdiag.Request.validate_target teq
    pantau.Common.Text.trim_space resolve pantau.Common.Text.equal_fold pantau.Common.Map.lookup
judged-IsSafeTarget_example =
    judged-IsSafeTarget still_go world request [] found (verdict_of found) refl

two_names : (parse_dns go [] (codes "db")).resolved_ips ≡ codes "10.0.0.7" ∷ codes "10.0.0.8" ∷ []
unfolding parse_dns teq
two_names = refl

abbrev replied : HopInfo
replied = record {
  hop = 1;
  host = codes "10.0.0.1";
  ip = codes "10.0.0.1";
  rtt = 1500;
  zone = codes "transit";
  status = codes "ok";
}

-- one preset, whose target fails and recovers
abbrev cycle_at : ℕ → TriageVerdict → Cycle
cycle_at now v = record {
  triage = λ host id. some (v, now + 5);
  settings = record { auto_triage = codes "1"; interval_min = []; default_host = [] };
  hosts = record { host_id = 3; host_status = codes "up" } ∷ [];
  now = now;
  presets = record { id = 1; enabled = true; source_host = none } ∷ [];
}

abbrev cycles : List Cycle
cycles =
    cycle_at 10000 branch_gateway_down
    ∷ cycle_at 10030 branch_gateway_down
    ∷ cycle_at 14000 branch_gateway_down
    ∷ cycle_at 14030 all_healthy
    ∷ []

run_cycles-IsBalanced_example : IsBalanced 1 (run_cycles cycles fresh)
run_cycles-IsBalanced_example = run_cycles-IsBalanced cycles 1

three_alerts :
    (run_cycles cycles fresh).sent ≡ (1, recovery 4030) ∷ (1, reminder 4000) ∷ (1, incident) ∷ []
unfolding run_cycles pantau.Netdiag.Auto.run_cycle teq pantau.Common.Numerals.atoi
    pantau.Common.Text.equal_fold pantau.Common.Map.lookup pantau.Common.Map.store
three_alerts = refl
