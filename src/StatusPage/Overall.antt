-- ===== src/StatusPage/Overall.antt =====
-- internal/store/status_page.go: the overall indicator of GetPublicStatusSummary.
use pantau.Common.{ℕ, Bool, true, false, ◌||◌, List, map, if◌then◌else◌, keep, some_of}
use pantau.Store.{Db}
use pantau.StatusPage.{Status, degraded, outage, Rollups}
use pantau.StatusPage.Targets.{Target, live_status}
use pantau.StatusPage.History.{Point, daily_history, uptime_90d}
use pantau.StatusPage.Incidents.{
  PageIncident, none_impact, minor, major, critical, active_incidents,
}

pub data Indicator : Type 0 where
  all_operational some_degraded maintenance major_outage : Indicator

pub record TargetSummary : Type 0 where
  pub id : ℕ
  pub status : Status
  pub uptime : ℕ
  pub history : List Point

-- one round of the loop over the targets
unfoldable pub summarize : Db → Rollups → ℕ → Target → TargetSummary
summarize d rows today t = record {
  id = t.id;
  status = live_status d t;
  uptime = uptime_90d t.id today rows;
  history = daily_history t.id rows (live_status d t) today 90;
}

abbrev pub is_outage : Status → Bool
is_outage outage = true
is_outage _ = false

abbrev pub is_degraded : Status → Bool
is_degraded degraded = true
is_degraded _ = false

abbrev pub is_critical : PageIncident → Bool
is_critical i = elim i.impact [ critical ↦ true | major ↦ true | _ ↦ false ]

abbrev pub is_minor : PageIncident → Bool
is_minor i = elim i.impact [ minor ↦ true | _ ↦ false ]

abbrev pub is_maintenance : PageIncident → Bool
is_maintenance i = elim i.impact [ none_impact ↦ true | _ ↦ false ]

unfoldable pub overall : List Status → List PageIncident → Indicator
overall sts incs =
    if some_of is_outage sts || some_of is_critical incs
    then major_outage
    else if some_of is_degraded sts || some_of is_minor incs
    then some_degraded
    else if some_of is_maintenance incs
    then maintenance
    else all_operational

pub record PublicSummary : Type 0 where
  pub targets : List TargetSummary
  pub incidents : List PageIncident
  pub indicator : Indicator

unfoldable pub get_public_summary :
    Db → Rollups → ℕ → List Target → List PageIncident → PublicSummary
unfolding summarize overall
get_public_summary d rows today ts incs =
    let enabled = keep (λ t. t.enabled) ts in
    record {
      targets = map (summarize d rows today) enabled;
      incidents = active_incidents incs;
      indicator = overall (map (live_status d) enabled) (active_incidents incs);
    }
