-- ===== src/StatusPage/Targets/Honest.antt =====
-- What the status of a target says of its host and rule.
use pantau.Common.{ℕ, ◌≡◌, refl, ap, ◌∙◌, ◌↔◌, true, false, some, arith}
use pantau.Common.Text.{Text, codes, teq, equal_fold}
use pantau.Common.Map.{number_key, text_key, pair_key, lookup, lookup-store_self}
use pantau.Store.{
  DesiredRule, ActualItem, Db, rule_by_id, list_inspection_runs, upsert_actual_item,
  record_incident, create_alert,
}
use pantau.Inspector.Verdicts.{Verdict, ok}
use pantau.Inspector.Drift.{apply_verdict, item_key}
use pantau.StatusPage.{outage}
use pantau.StatusPage.Targets.{
  Target, host, desired_rule, is_vital, item_status, rule_target_status, columns_status,
  live_status, first_down, rollup_status, host_target_status,
}

-- An inspection records an outage of a host exactly when it has found it down, unless the newest of
-- its runs is the first one that is down.
pub rollup_status_outage :
    (d : Db) (host_status : Text) (t : Target)
    → t.target_type ≡ host
    → (rollup_status d host_status t ≡ outage) ↔ (
        (teq host_status (codes "down") ≡ true)
        × (first_down (list_inspection_runs t.host_id 2 d) ≡ false))
unfolding rollup_status host_target_status
rollup_status_outage d host_status t h = ground (arith, h)

apply_verdict-tables :
    (host_id : ℕ) (rule : DesiredRule) (v : Verdict) (d : Db)
    → ((apply_verdict host_id rule v d).host_status ≡ d.host_status)
      × ((apply_verdict host_id rule v d).desired_rules ≡ d.desired_rules)
      × (lookup (item_key host_id rule) (apply_verdict host_id rule v d).actual_items
          ≡ some (record { current = v.current; status = v.status; details = v.details }))
unfolding apply_verdict upsert_actual_item record_incident create_alert
apply_verdict-tables host_id rule v d = ground (
  arith,
  lookup-store_self (item_key host_id rule)
      (record { current = v.current; status = v.status; details = v.details }) d.actual_items,
)

item_status-ok :
    (kind expected : Text) (it : ActualItem)
    → it.status ≡ ok
    → is_vital kind ≡ true
    → equal_fold ok expected ≡ false
    → item_status kind expected (some it) ≡ outage
unfolding item_status teq
item_status-ok kind expected it good vital differs = rw (good, differs, vital, item_status) refl

rule_target_status-ok :
    (d : Db) (host_id rule_id : ℕ) (rule : DesiredRule) (s : Text) (it : ActualItem)
    → rule_by_id rule_id d.desired_rules ≡ some rule
    → lookup host_id d.host_status ≡ some s
    → teq s (codes "down") ≡ false
    → lookup (item_key host_id rule) d.actual_items ≡ some it
    → it.status ≡ ok
    → is_vital rule.kind ≡ true
    → equal_fold ok rule.expected ≡ false
    → rule_target_status d host_id rule_id ≡ outage
unfolding rule_target_status columns_status
rule_target_status-ok d host_id rule_id rule s it found known up there good vital differs =
    rw (found, known, up, there, rule_target_status, columns_status)
      (item_status-ok rule.kind rule.expected it good vital differs)

-- A rule on a service, port, container or process that the inspector has just found in order is
-- shown as an outage, on a host that is up, unless the rule expects the very text "ok": the page
-- compares the stored verdict with the expected state.
pub live_status-apply_verdict :
    (d : Db) (rule : DesiredRule) (v : Verdict) (t : Target) (rule_id : ℕ) (s : Text)
    → t.target_type ≡ desired_rule
    → t.desired_rule_id ≡ some rule_id
    → rule_by_id rule_id d.desired_rules ≡ some rule
    → lookup t.host_id d.host_status ≡ some s
    → teq s (codes "down") ≡ false
    → is_vital rule.kind ≡ true
    → equal_fold ok rule.expected ≡ false
    → v.status ≡ ok
    → live_status (apply_verdict t.host_id rule v d) t ≡ outage
unfolding live_status
live_status-apply_verdict d rule v t rule_id s rule_type has found known up vital differs good =
    let tables = apply_verdict-tables t.host_id rule v d in
    rw (rule_type, has, live_status)
      (rule_target_status-ok (apply_verdict t.host_id rule v d) t.host_id rule_id rule s _
        (ap (rule_by_id rule_id) tables.1 ∙ found) (ap (lookup t.host_id) tables.0 ∙ known) up
        tables.2 good vital differs)
