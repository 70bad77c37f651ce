-- ===== src/Netdiag/Probe.antt =====
-- internal/netdiag/service.go: ExecuteProbe, from its guards to the events that it sends. The runner,
-- whose code is not here, is the lines that a command streams; the log is left out.
pub mod Hops
use pantau.Common.{
  ℕ, zero, suc, ◌+◌, Bool, true, false, not, ◌&&◌, ◌||◌, Option, none, some, List, [], ◌∷◌, ◌++◌,
  ltb, leb, ◌==◌, if◌then◌else◌, some_of,
}
use pantau.Common.Text.{Text, codes, teq, equal_fold, contains, to_lower}
use pantau.Common.Int.{pos}
use pantau.Common.Numerals.{itoa}
use pantau.Common.Map.{Map, number_key, lookup, store, delete}
use pantau.Shell.{shell_quote}
use pantau.Netdiag.{HopInfo, HopAnalysis, analyze_hops}
use pantau.Netdiag.Parsers.{GoLib, silent_hop, parse_hop_line}
use pantau.Netdiag.Outputs.{PingStats, parse_ping, PortStats, parse_port, DnsStats, parse_dns}
use pantau.Netdiag.Request.{TargetError, validate_target}

pub data ProbeType : Type 0 where
  ping traceroute port_probe dns_resolve unsupported : ProbeType

-- `target_port` is 0 for every number that is not positive, as are the ids.
pub record ProbeRequest : Type 0 where
  pub source_host_id : ℕ
  pub kind : ProbeType
  pub to_host : Bool
  pub target_host_id : ℕ
  pub target_address : Text
  pub target_port : ℕ

pub record ProbeHost : Type 0 where
  pub address : Text
  pub host_status : Text

pub data ProbeEvent : Type 0 where
  raw : Text → ProbeEvent
  hop : HopInfo → ProbeEvent
  hop_analysis : List HopInfo → HopAnalysis → ProbeEvent
  ping_stats : PingStats → ProbeEvent
  port_stats : PortStats → ProbeEvent
  dns_stats : DnsStats → ProbeEvent
  finished : ProbeEvent

pub data ProbeError : Type 0 where
  bad_port target_id_missing target_missing target_offline : ProbeError
  bad_target : TargetError → ProbeError
  source_missing source_offline busy ssh_failed unsupported_type timed_out : ProbeError

-- the command of each type
unfoldable pub probe_command : ProbeType → Text → ℕ → Option Text
probe_command ping t p = some (codes "timeout 14 ping -c 4 -W 2 " ++ shell_quote t ++ codes " 2>&1")
probe_command traceroute t p = some (
    codes "command -v tracepath >/dev/null 2>&1 && (timeout 15 tracepath -n -m 20 "
    ++ shell_quote t
    ++ codes " 2>&1) || (timeout 15 traceroute -n -m 20 -q 1 -w 1 "
    ++ shell_quote t
    ++ codes " 2>&1)")
probe_command port_probe t p = some (
    codes "timeout 3 bash -c '</dev/tcp/"
    ++ t
    ++ codes "/"
    ++ itoa p
    ++ codes "' 2>/dev/null && echo 'PORT_OPEN' || echo 'PORT_CLOSED'")
probe_command dns_resolve t p = some (
    codes "getent hosts "
    ++ shell_quote t
    ++ codes " 2>&1 || nslookup "
    ++ shell_quote t
    ++ codes " 2>&1")
probe_command unsupported t p = none

abbrev pub is_timeout : HopInfo → Bool
is_timeout h = teq h.status (codes "timeout")

-- whether a reading of a hop takes the place of the one before it
unfoldable pub is_better : Option HopInfo → HopInfo → Bool
is_better none h = true
is_better (some e) h = is_timeout e && not (is_timeout h) || ltb 0 h.rtt && e.rtt == 0

unfoldable pub keep_best : HopInfo → Map ℕ HopInfo → Map ℕ HopInfo
unfolding is_better
keep_best h m = if is_better (lookup h.hop m) h then store h.hop h m else m

-- the hops of the lines of a trace
unfoldable pub read_hops : GoLib → Text → List Text → Map ℕ HopInfo → Map ℕ HopInfo
unfolding keep_best
read_hops g target [] m = m
read_hops g target (l ∷ ls) m = elim (parse_hop_line g l target) [
  | none ↦ read_hops g target ls m
  | some h ↦ read_hops g target ls (keep_best h m)
]

abbrev pub says_reached : Text → Bool
says_reached l = contains (to_lower l) (codes "reached")

-- the greatest number of a hop
unfoldable pub max_hop : Map ℕ HopInfo → ℕ
max_hop [] = 0
max_hop ((n, h) ∷ m) = let rest = max_hop m in if ltb rest n then n else rest

abbrev pub hop_at : ℕ → Map ℕ HopInfo → HopInfo
hop_at n m = elim (lookup n m) [ none ↦ silent_hop n | some h ↦ h ]

-- the hops 1 to n, silent where there is none
unfoldable pub fill_hops : ℕ → Map ℕ HopInfo → List HopInfo
fill_hops zero m = []
fill_hops (suc n) m = fill_hops n m ++ hop_at (suc n) m ∷ []

-- the events of the lines, in order
unfoldable pub line_events : GoLib → ProbeType → Text → List Text → List ProbeEvent
line_events g kind target [] = []
line_events g kind target (l ∷ ls) =
    let rest = line_events g kind target ls in
    let with_hop : List ProbeEvent = elim (parse_hop_line g l target) [
      | none ↦ rest
      | some h ↦ hop h ∷ rest
    ] in
    raw l ∷ elim kind [ traceroute ↦ with_hop | _ ↦ rest ]

-- strings.Builder with a newline after each line
abbrev pub full_output : List Text → Text
full_output [] = []
full_output (l ∷ ls) = l ++ 10 ∷ full_output ls

unfoldable pub traced_hops : GoLib → Text → List Text → List HopInfo
unfolding read_hops max_hop fill_hops
traced_hops g target ls = let m = read_hops g target ls [] in fill_hops (max_hop m) m

-- what is sent when the stream has ended
unfoldable pub final_event : GoLib → ProbeRequest → List Text → List ProbeEvent
unfolding traced_hops
final_event g r ls =
    let t = r.target_address in
    elim r.kind [
      | ping ↦ ping_stats (parse_ping g (full_output ls)) ∷ []
      | traceroute ↦
          hop_analysis (traced_hops g t ls)
            (analyze_hops (traced_hops g t ls) t (some_of says_reached ls))
          ∷ []
      | port_probe ↦ port_stats (parse_port (full_output ls) (pos r.target_port)) ∷ []
      | dns_resolve ↦ dns_stats (parse_dns g (full_output ls) t) ∷ []
      | unsupported ↦ []
    ]

-- What a probe meets: the hosts, whether SSH connects, and for a command the lines that come before
-- it ends or its time is over.
pub record ProbeWorld : Type 0 where
  pub host_of : ℕ → Option ProbeHost
  pub connects : Bool
  pub lines : Text → List Text × Bool

pub data ProbeResult : Type 0 where
  refused : ProbeError → ProbeResult
  sent : List ProbeEvent → ProbeResult

-- steps 5 to 8
unfoldable pub run_probe : GoLib → ProbeWorld → ProbeRequest → ProbeResult
unfolding probe_command line_events final_event
run_probe g w r =
    if not w.connects
    then refused ssh_failed
    else elim (probe_command r.kind r.target_address r.target_port) [
      | none ↦ refused unsupported_type
      | some cmd ↦
          let ls = (w.lines cmd).0 in
          if (w.lines cmd).1 && teq (full_output ls) []
          then refused timed_out
          else sent
              (line_events g r.kind r.target_address ls ++ final_event g r ls ++ finished ∷ [])
    ]

-- steps 3 to 8, of a request whose address is resolved
unfoldable pub guarded_probe :
    GoLib → ProbeWorld → ProbeRequest → Map ℕ Bool → ProbeResult × Map ℕ Bool
unfolding run_probe
guarded_probe g w r m = elim (validate_target r.target_address) [
  | some e ↦ (refused (bad_target e), m)
  | none ↦ elim (w.host_of r.source_host_id) [
    | none ↦ (refused source_missing, m)
    | some h ↦
        if equal_fold h.host_status (codes "down")
        then (refused source_offline, m)
        else elim (lookup r.source_host_id m) [
          | some b ↦ (refused busy, m)
          | none ↦ (run_probe g w r, delete r.source_host_id (store r.source_host_id true m))
        ]
  ]
]

abbrev is_port : ProbeType → Bool
is_port k = elim k [ port_probe ↦ true | _ ↦ false ]

-- ExecuteProbe, with the hosts in flight before and after it
unfoldable pub execute_probe :
    GoLib → ProbeWorld → ProbeRequest → Map ℕ Bool → ProbeResult × Map ℕ Bool
unfolding guarded_probe
execute_probe g w r m =
    if is_port r.kind && (ltb r.target_port 1 || ltb 65535 r.target_port)
    then (refused bad_port, m)
    else if not r.to_host
    then guarded_probe g w r m
    else if r.target_host_id == 0
    then (refused target_id_missing, m)
    else elim (w.host_of r.target_host_id) [
      | none ↦ (refused target_missing, m)
      | some h ↦
          if equal_fold h.host_status (codes "down")
          then (refused target_offline, m)
          else guarded_probe g w (record r { target_address = h.address }) m
    ]
