-- ===== src/Netdiag/Auto.antt =====
-- internal/netdiag/service.go: the cycle of automatic triage, and which alerts it sends. Times are
-- seconds; the triage itself is a parameter that gives a verdict and the time when it is there.
pub mod Balance
use pantau.Common.{
  ℕ, suc, ◌+◌, ◌-◌, ◌*◌, Bool, true, false, not, ◌&&◌, ◌||◌, Option, none, some, List, [], ◌∷◌, ltb,
  leb, ◌==◌, if◌then◌else◌,
}
use pantau.Common.Text.{Text, codes, teq, equal_fold}
use pantau.Common.Map.{Map, number_key, lookup, store}
use pantau.Common.Int.{ℤ, pos, negsuc, pos_part}
use pantau.Common.Numerals.{atoi}
use pantau.Netdiag.Parsers.{int_or_zero}
use pantau.Netdiag.Verdict.{
  TriageVerdict, all_healthy, host_saturated, app_degraded, transit_path_degraded,
  branch_gateway_down, mtu_blackhole, icmp_filtered_tcp,
}

-- `last_verdict` is none for the empty one.
pub record TargetState : Type 0 where
  pub last_verdict : Option TriageVerdict
  pub last_alert : ℕ
  pub incident_start : ℕ

abbrev pub unknown_state : TargetState
unknown_state = record { last_verdict = none; last_alert = 0; incident_start = 0 }

abbrev pub is_healthy : TriageVerdict → Bool
is_healthy v = elim v [ all_healthy ↦ true | _ ↦ false ]

-- A verdict that is known and not healthy.
abbrev pub is_incident : Option TriageVerdict → Bool
is_incident none = false
is_incident (some v) = not (is_healthy v)

-- a message to the dispatcher; a reminder and a recovery say how long the incident is or was
pub data Alert : Type 0 where
  incident : Alert
  reminder recovery : ℕ → Alert

-- what a verdict does to the state of its target: `since` is the time since the last alert when the
-- triage began
unfoldable pub observe : ℕ → ℕ → TriageVerdict → TargetState → TargetState × Option Alert
observe since now v s =
    let t = record s { last_verdict = some v } in
    if not (is_healthy v)
    then (if not (is_incident s.last_verdict)
        then (record t { incident_start = now; last_alert = now }, some incident)
        else if leb 3600 since
        then (record t { last_alert = now }, some (reminder (now - s.incident_start)))
        else (t, none))
    else if is_incident s.last_verdict
    then (
      record t { incident_start = 0; last_alert = now },
      some (recovery (now - s.incident_start)),
    )
    else (record t { last_alert = now }, none)

-- a target that is healthy waits for the interval
unfoldable pub is_waiting : ℕ → ℕ → TargetState → Bool
is_waiting interval now s = elim s.last_verdict [
  | none ↦ false
  | some v ↦ ltb (now - s.last_alert) interval && is_healthy v
]

pub record AutoPreset : Type 0 where
  pub id : ℕ
  pub enabled : Bool
  pub source_host : Option ℕ

pub record HostRow : Type 0 where
  pub host_id : ℕ
  pub host_status : Text

-- the first host that is not down, 0 if there is none
unfoldable pub fallback_host : List HostRow → ℕ
fallback_host [] = 0
fallback_host (h ∷ hs) =
    let rest = fallback_host hs in
    if not (equal_fold h.host_status (codes "down")) then h.host_id else rest

abbrev or_host : ℕ → ℕ → ℕ
or_host h d = if h == 0 then d else h

-- the host of a preset, then the default, then the fallback; 0 if there is none
unfoldable pub source_of : ℕ → ℕ → Option ℕ → ℕ
source_of default fallback none = or_host default fallback
source_of default fallback (some h) = or_host h (or_host default fallback)

-- the settings, texts as they are stored
pub record Settings : Type 0 where
  pub auto_triage : Text
  pub interval_min : Text
  pub default_host : Text

unfoldable pub interval_of : Settings → ℕ
interval_of c =
    let v = pos_part (int_or_zero (atoi c.interval_min)) in (if v == 0 then 10 else v) * 60

-- the states of the presets, and the alerts sent so far with their presets, the newest first
pub record AutoState : Type 0 where
  pub target_states : Map ℕ TargetState
  pub sent : List (ℕ × Alert)

abbrev pub state_of : ℕ → AutoState → TargetState
state_of id a = elim (lookup id a.target_states) [ none ↦ unknown_state | some s ↦ s ]

abbrev pub send : ℕ → Option Alert → List (ℕ × Alert) → List (ℕ × Alert)
send id none sent = sent
send id (some a) sent = (id, a) ∷ sent

-- What a triage of a preset from a host gives, if it gives a verdict: the verdict, and the time.
abbrev pub Triage : Type 0
Triage = ℕ → ℕ → Option (TriageVerdict × ℕ)

-- one round of the loop over the presets, at a time
unfoldable pub cycle_preset : Triage → Settings → ℕ → ℕ → AutoPreset → AutoState → AutoState
unfolding observe is_waiting source_of interval_of
cycle_preset triage c fallback now p a =
    let host = source_of (pos_part (int_or_zero (atoi c.default_host))) fallback p.source_host in
    let s = state_of p.id a in
    let known = record a { target_states = store p.id s a.target_states } in
    if not p.enabled || host == 0
    then a
    else if is_waiting (interval_of c) now s
    then known
    else elim (triage host p.id) [
      | none ↦ known
      | some (v, after) ↦ record {
        target_states = store p.id (observe (now - s.last_alert) after v s).0 a.target_states;
        sent = send p.id (observe (now - s.last_alert) after v s).1 a.sent;
      }
    ]

unfoldable pub cycle_presets : Triage → Settings → ℕ → ℕ → List AutoPreset → AutoState → AutoState
unfolding cycle_preset
cycle_presets triage c fallback now [] a = a
cycle_presets triage c fallback now (p ∷ ps) a =
    cycle_presets triage c fallback now ps (cycle_preset triage c fallback now p a)

-- runAutoTriageCycle
unfoldable pub run_cycle :
    Triage → Settings → List HostRow → ℕ → List AutoPreset → AutoState → AutoState
unfolding cycle_presets fallback_host
run_cycle triage c hosts now ps a =
    if teq c.auto_triage (codes "1") || teq c.auto_triage (codes "true")
    then cycle_presets triage c (fallback_host hosts) now ps a
    else a
