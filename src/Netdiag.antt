-- ===== src/Netdiag.antt =====
-- internal/netdiag/parser.go: AnalyzeHops, the diagnosis of a traced route. Round-trip times are
-- microseconds. The summaries, which are texts made of the fields below, are left out.
pub mod Hops
pub mod Parsers
pub mod Outputs
pub mod Probe
pub mod Auto
pub mod Request
pub mod Verdict
mod Examples
mod Runs
use pantau.Common.{
  ℕ, zero, suc, ◌+◌, ◌-◌, Bool, true, false, not, ◌&&◌, ◌||◌, Option, none, some, List, [], ◌∷◌,
  ltb, leb, ◌==◌, if◌then◌else◌, length,
}
use pantau.Common.Text.{Text, codes, teq}

pub record HopInfo : Type 0 where
  pub hop : ℕ
  pub host : Text
  pub ip : Text
  pub rtt : ℕ
  pub zone : Text
  pub status : Text

pub data RouteStatus : Type 0 where
  optimal degraded failed : RouteStatus

pub record HopAnalysis : Type 0 where
  pub total_hops : ℕ
  pub status : RouteStatus
  pub destination_found : Bool
  pub final_rtt : ℕ
  pub drop_at_hop : Option ℕ
  pub latency_spike_hop : Option ℕ

-- the variables of the loop
pub record Scan : Type 0 where
  pub last_replying : Option HopInfo
  pub last_index : ℕ
  pub max_diff : ℕ
  pub spike : Option HopInfo
  pub reached : Option HopInfo

abbrev pub reaches : Text → Bool → HopInfo → Bool
reaches target target_reached h =
    teq h.zone (codes "destination")
    || target_reached
    || not (teq target []) && (teq h.ip target || teq h.host target)

abbrev pub replies : HopInfo → Bool
replies h = not (teq h.status (codes "timeout")) && ltb 0 h.rtt

-- what a reply adds to the time of the reply before it; `diff` below 0 counts as 0
abbrev pub diff_of : Option HopInfo → HopInfo → ℕ
diff_of none h = 0
diff_of (some last) h = h.rtt - last.rtt

-- one round of the loop
unfoldable pub scan_hop : Text → Bool → ℕ → HopInfo → Scan → Scan
scan_hop target target_reached i h s =
    let is_spike =
      replies h
      && ltb 60000 (diff_of s.last_replying h)
      && ltb s.max_diff (diff_of s.last_replying h) in
    record {
      last_replying = if replies h then some h else s.last_replying;
      last_index = if replies h then i else s.last_index;
      max_diff = if is_spike then diff_of s.last_replying h else s.max_diff;
      spike = if is_spike then some h else s.spike;
      reached = if reaches target target_reached h then some h else s.reached;
    }

unfoldable pub scan_hops : Text → Bool → ℕ → List HopInfo → Scan → Scan
scan_hops target target_reached i [] s = s
scan_hops target target_reached i (h ∷ hops) s =
    scan_hops target target_reached (suc i) hops (scan_hop target target_reached i h s)

abbrev pub no_scan : Scan
no_scan = record {
  last_replying = none;
  last_index = 0;
  max_diff = 0;
  spike = none;
  reached = none;
}

abbrev rtt_of : Option HopInfo → ℕ
rtt_of none = 0
rtt_of (some h) = h.rtt

-- the analysis after the loop
unfoldable pub conclude : ℕ → Scan → HopAnalysis
conclude total s =
    let failure : HopAnalysis = record {
      total_hops = total;
      status = failed;
      destination_found = false;
      final_rtt = rtt_of s.last_replying;
      drop_at_hop = none;
      latency_spike_hop = none;
    } in
    elim s.reached [
      | some r ↦ elim s.spike [
        | none ↦ record failure { status = optimal; destination_found = true }
        | some h ↦
            if leb 70000 s.max_diff
            then record failure {
              status = degraded;
              destination_found = true;
              latency_spike_hop = some h.hop;
            }
            else record failure { status = optimal; destination_found = true }
      ]
      | none ↦ elim s.last_replying [
        | none ↦ failure
        | some h ↦
            if ltb (s.last_index + 1) total
            then record failure { drop_at_hop = some h.hop }
            else failure
      ]
    ]

unfoldable pub analyze_hops : List HopInfo → Text → Bool → HopAnalysis
unfolding conclude scan_hops scan_hop
analyze_hops hops target target_reached =
    conclude (length hops) (scan_hops target target_reached 0 hops no_scan)
