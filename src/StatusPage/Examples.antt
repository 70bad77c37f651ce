-- ===== src/StatusPage/Examples.antt =====
-- A page with a host target and a rule target.
use pantau.Common.{
  ℕ, ◌≡◌, ◌≤◌, ◌+◌, ◌↔◌, refl, some, none, true, false, List, [], ◌∷◌, map, keep, some_of, All,
}
use pantau.Common.Text.{codes, teq, equal_fold}
use pantau.Common.Map.{number_key, text_key, pair_key, lookup}
use pantau.Store.{DesiredRule, InspectionRun, Db, rule_by_id}
use pantau.Inspector.Verdicts.{Verdict, ok}
use pantau.Inspector.Drift.{apply_verdict}
use pantau.StatusPage.{
  Status, operational, degraded, outage, Check, Rollup, record_all, deg_inc, out_inc,
}
use pantau.StatusPage.Uptime.{statuses_of, summary, lookup-record_all}
use pantau.StatusPage.Targets.{Target, host, desired_rule, is_vital, live_status}
use pantau.StatusPage.Targets.Honest.{live_status-apply_verdict}
use pantau.StatusPage.Incidents.{
  Draft, Change, creates, posts, change_all, resolved_has_time, IsDated, resolved, critical,
}

abbrev checks : List Check
checks = ((1, 20), operational) ∷ ((2, 20), outage) ∷ ((1, 20), degraded) ∷ []

abbrev day_row : Rollup
day_row = record {
  total_checks = 2;
  successful_checks = 1;
  degraded_checks = 1;
  outage_checks = 0;
  uptime_percentage = 7500;
}

lookup-record_all_example :
    lookup (1, 20) (record_all checks []) ≡ summary (statuses_of (1, 20) checks)
lookup-record_all_example = lookup-record_all (1, 20) checks

row_there : lookup (1, 20) (record_all checks []) ≡ some day_row
unfolding lookup record_all pantau.StatusPage.record_daily_rollup pantau.Common.Map.store
    pantau.StatusPage.percentage
row_there = refl

abbrev nginx : DesiredRule
nginx = record {
  id = 3;
  host_id = 7;
  kind = codes "service";
  target = codes "nginx";
  expected = codes "active";
  enabled = true;
}

abbrev down_run : InspectionRun
down_run = record { host_id = 7; status = codes "down"; summary = []; details = [] }

abbrev db : Db
db = record {
  host_status = (7, codes "healthy") ∷ [];
  desired_rules = nginx ∷ [];
  actual_items = [];
  incidents = [];
  alerts = [];
  runs = down_run ∷ down_run ∷ [];
}

abbrev host_target : Target
host_target = record {
  id = 1;
  target_type = host;
  host_id = 7;
  desired_rule_id = none;
  enabled = true;
}

abbrev rule_target : Target
rule_target = record host_target { target_type = desired_rule; desired_rule_id = some 3 }

abbrev healthy : Verdict
healthy = record { current = codes "active"; status = ok; details = []; root_cause = [] }

rule_there : rule_by_id 3 db.desired_rules ≡ some nginx
unfolding rule_by_id
rule_there = refl

host_there : lookup 7 db.host_status ≡ some (codes "healthy")
unfolding lookup
host_there = refl

host_up : teq (codes "healthy") (codes "down") ≡ false
unfolding teq
host_up = refl

service_vital : is_vital (codes "service") ≡ true
unfolding teq
service_vital = refl

active_differs : equal_fold ok (codes "active") ≡ false
unfolding equal_fold
active_differs = refl

live_status-apply_verdict_example :
    live_status (apply_verdict 7 nginx healthy db) rule_target ≡ outage
live_status-apply_verdict_example =
    live_status-apply_verdict db nginx healthy rule_target 3 (codes "healthy") refl refl rule_there
      host_there host_up service_vital active_differs refl

abbrev draft : Draft
draft = record {
  title = codes "Disk";
  status = codes "investigating";
  impact = critical;
  message = codes "Looking";
  affected_targets = 1 ∷ [];
}

abbrev changes : List Change
changes =
    creates draft 5 ∷ posts 1 resolved (codes "Done") 9 ∷ posts 1 (codes "monitoring") [] 12 ∷ []

resolved_has_time_example :
    All IsDated (change_all changes (record { rows = []; next_id = 1 })).rows
resolved_has_time_example = resolved_has_time changes 1
