-- ===== src/Netdiag/Verdict.antt =====
-- internal/netdiag/triage.go: ExecuteTriage, from the commands that it runs on the source host to its
-- verdict. Events, texts for people and the incident log are left out. Commands are data, and the
-- runner, whose code is not here, is what each prints.
pub mod Healthy
pub mod Guards
pub mod Blackhole
use pantau.Common.{
  ℕ, suc, ◌+◌, ◌-◌, ◌*◌, Bool, true, false, not, ◌&&◌, ◌||◌, Option, none, some, List, [], ◌∷◌,
  ◌++◌, ltb, leb, ◌==◌, if◌then◌else◌, length, some_of, keep, map,
}
use pantau.Common.Text.{Text, codes, teq, equal_fold, contains, fields, split, trim_space}
use pantau.Common.Int.{ℤ, pos, pos_part, negsuc}
use pantau.Common.Numerals.{atoi}
use pantau.Common.Map.{Map, number_key, lookup, store, delete}
use pantau.Netdiag.{HopInfo, HopAnalysis, analyze_hops}
use pantau.Netdiag.Parsers.{GoLib, or_zero, int_or_zero, is_private, parse_hop_line}
use pantau.Netdiag.Outputs.{
  LayerStatus, healthy, PingStats, parse_ping, PortStats, parse_port, parse_dns, RouteInfo,
  parse_route, L7ProbeStats, no_l7, from, parse_curl, parse_mtu_ping,
}
use pantau.Netdiag.Request.{
  TriageRequest, Preset, resolve, TargetError, validate_target, parse_endpoint, is_explicit,
}

pub data Command : Type 0 where
  resolve_name ip_route ping tcp_trace : Text → Command
  check_port_80 detect_db : Command
  curl : ℤ → Text → Command
  probe_db : ℕ → Command
  mtu_ping : ℕ → Text → Command
  tcp_probe : Text → ℤ → Command

-- the columns of a host that a triage reads; the load is a text
pub record HostLoad : Type 0 where
  pub cpu_load : Text
  pub ram_used : ℕ
  pub ram_total : ℕ
  pub swap_used : ℕ
  pub swap_total : ℕ
  pub conn_count : ℕ
  pub host_status : Text

-- strings.ReplaceAll(s, ",", " ")
abbrev blank_commas : Text → Text
blank_commas s = map (λ c. if c == b',' then 32 else c) s

abbrev head_of : List Text → Text
head_of [] = []
head_of (w ∷ ws) = w

-- the load in millionths
unfoldable pub cpu_of : GoLib → HostLoad → ℕ
cpu_of g h = or_zero (g.parse_float (head_of (fields (blank_commas h.cpu_load))))

-- used / total * 100 > limit, for a total that is not 0
abbrev pub is_over : ℕ → ℕ → ℕ → Bool
is_over limit used total = ltb 0 total && ltb (limit * total) (100 * used)

-- the condition of a host that is saturated
unfoldable pub is_saturated : GoLib → HostLoad → Bool
is_saturated g h =
    ltb 950000 (cpu_of g h)
    || (is_over 95 h.ram_used h.ram_total && is_over 40 h.swap_used h.swap_total)
    || (ltb 2000 h.conn_count && ltb 850000 (cpu_of g h))

pub record MtuStats : Type 0 where
  pub tested : List ℕ
  pub passed : List ℕ
  pub blackhole : Bool

-- the sizes of the sweep
unfoldable pub payloads : ℕ → List ℕ
payloads mtu =
    let oversized : List ℕ = if ltb mtu 1500 then 1472 ∷ [] else [] in
    1200 ∷ (if ltb 28 mtu then (mtu - 28) ∷ oversized else oversized)

-- small packets pass and those of the tunnel's size do not
unfoldable pub is_blackhole : ℕ → List ℕ → Bool
is_blackhole mtu passed =
    some_of (λ sz. leb sz 1200) passed && not (some_of (λ sz. sz == mtu - 28) passed) && ltb 28 mtu

unfoldable pub sweep : GoLib → (Command → Text) → ℕ → Text → MtuStats
unfolding payloads is_blackhole
sweep g exec mtu ip =
    let sizes = payloads mtu in
    let passed = keep (λ sz. parse_mtu_ping g (exec (mtu_ping sz ip))) sizes in
    record { tested = sizes; passed = passed; blackhole = is_blackhole mtu passed }

pub data TriageVerdict : Type 0 where
  host_saturated app_degraded transit_path_degraded branch_gateway_down mtu_blackhole :
      TriageVerdict
  icmp_filtered_tcp all_healthy : TriageVerdict

-- what the probes found, and the limits of the request
pub record Findings : Type 0 where
  pub saturated : Bool
  pub l7 : L7ProbeStats
  pub probed_l7 : Bool
  pub explicit : Bool
  pub db_port : Option PortStats
  pub mtu : Option MtuStats
  pub ping_stats : PingStats
  pub tcp : Option PortStats
  pub hops : Option HopAnalysis
  pub max_loss : ℕ
  pub max_latency : ℕ

abbrev pub is_code : ℕ → ℤ → Bool
is_code n (pos m) = m == n
is_code n (negsuc m) = false

abbrev pub has_blackhole : Option MtuStats → Bool
has_blackhole none = false
has_blackhole (some m) = m.blackhole

abbrev pub tcp_open : Option PortStats → Bool
tcp_open none = false
tcp_open (some p) = p.is_open

-- the switch, in the order of its cases
unfoldable pub verdict_of : Findings → TriageVerdict
verdict_of f =
    let code = f.l7.http_code in
    let lost = leb 99000000 f.ping_stats.loss in
    if f.saturated
    then host_saturated
    else if is_code 502 code || is_code 504 code
    then app_degraded
    else if is_code 500 code
    then app_degraded
    else if is_code 503 code
    then app_degraded
    else if from 501 code
    then app_degraded
    else if is_code 0 code && f.probed_l7 && f.explicit
    then app_degraded
    else if has_blackhole f.mtu
    then mtu_blackhole
    else if lost && tcp_open f.tcp
    then icmp_filtered_tcp
    else if lost && not (tcp_open f.tcp)
    then branch_gateway_down
    else if ltb f.max_loss f.ping_stats.loss || ltb f.max_latency f.ping_stats.avg
    then transit_path_degraded
    else if ltb 2500000 f.l7.ttfb
    then app_degraded
    else all_healthy

-- the address that the first step resolves
unfoldable pub resolved_ip : GoLib → (Command → Text) → Text → Text
resolved_ip g exec target = elim (g.parse_ip target) [
  | some b ↦ target
  | none ↦ elim (parse_dns g (exec (resolve_name target)) target).resolved_ips [
    | [] ↦ target
    | ip ∷ ips ↦ ip
  ]
]

-- the port of the request, or one that listens
unfoldable pub target_db_port : (Command → Text) → ℕ → ℕ
target_db_port exec port =
    if port == 0 then pos_part (int_or_zero (atoi (trim_space (exec detect_db)))) else port

abbrev bypassed_l7 : L7ProbeStats
bypassed_l7 = record no_l7 { http_code = pos 200; l7_status = healthy }

abbrev hops_of : GoLib → Text → List Text → List HopInfo
hops_of g ip [] = []
hops_of g ip (l ∷ lines) =
    let rest = hops_of g ip lines in
    elim (parse_hop_line g l ip) [ none ↦ rest | some h ↦ h ∷ rest ]

unfoldable pub analyze_trace : GoLib → Text → Text → Option HopAnalysis
analyze_trace g ip out =
    let hops = hops_of g ip (split 10 out) in
    if leb (length hops) 0
    then none
    else some (analyze_hops hops ip (contains out (codes "reached")))

-- steps 4 to 9
unfoldable pub probe : GoLib → (Command → Text) → HostLoad → TriageRequest → Findings
unfolding is_saturated sweep resolved_ip target_db_port analyze_trace
probe g exec h r =
    let ip = resolved_ip g exec r.target_address in
    let route = parse_route g (exec (ip_route ip)) ip in
    let endpoint = trim_space r.app_endpoint in
    let app = parse_endpoint g endpoint in
    let probed = is_explicit endpoint || teq (trim_space (exec check_port_80)) (codes "OPEN") in
    let port = target_db_port exec r.db_port in
    let internal = route.is_private_route || is_private g ip in
    let pings = parse_ping g (exec (ping ip)) in
    record {
      saturated = is_saturated g h;
      l7 = if probed then parse_curl g (exec (curl app.0 app.1)) else bypassed_l7;
      probed_l7 = probed;
      explicit = is_explicit endpoint;
      db_port = if port == 0 then none else some (parse_port (exec (probe_db port)) (pos port));
      mtu = if internal then some (sweep g exec r.baseline_mtu ip) else none;
      ping_stats = pings;
      tcp =
          if leb 99000000 pings.loss
          then some (parse_port (exec (tcp_probe ip app.0)) app.0)
          else none;
      hops = if internal then none else analyze_trace g ip (exec (tcp_trace ip));
      max_loss = r.max_loss;
      max_latency = r.max_latency;
    }

pub data TriageError : Type 0 where
  bad_target : TargetError → TriageError
  host_missing host_offline busy ssh_failed : TriageError

pub data Outcome : Type 0 where
  refused : TriageError → Outcome
  judged : Findings → TriageVerdict → Outcome

-- What ExecuteTriage reads: the host's row, whether SSH connects, the preset and two settings.
pub record World : Type 0 where
  pub host : Option HostLoad
  pub connects : Bool
  pub preset : Option Preset
  pub app_setting : Text
  pub db_setting : Text
  pub exec : Command → Text

-- ExecuteTriage, with the hosts that are in flight before and after it
unfoldable pub execute_triage : GoLib → World → TriageRequest → Map ℕ Bool → Outcome × Map ℕ Bool
unfolding probe verdict_of
execute_triage g w req in_flight =
    let r = resolve w.preset w.app_setting w.db_setting req in
    let host = r.source_host_id in
    elim (validate_target r.target_address) [
      | some e ↦ (refused (bad_target e), in_flight)
      | none ↦ elim w.host [
        | none ↦ (refused host_missing, in_flight)
        | some h ↦
            if equal_fold h.host_status (codes "down")
            then (refused host_offline, in_flight)
            else elim (lookup host in_flight) [
              | some b ↦ (refused busy, in_flight)
              | none ↦
                  let freed = delete host (store host true in_flight) in
                  let found = probe g w.exec h r in
                  if w.connects
                  then (judged found (verdict_of found), freed)
                  else (refused ssh_failed, freed)
            ]
      ]
    ]
