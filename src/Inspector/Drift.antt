-- ===== src/Inspector/Drift.antt =====
-- internal/inspector/inspector.go: evaluateDesiredRules, one rule after the other. The notifier,
-- which sends the alert's text to a chat, is left out.
use pantau.Common.{
  ℕ, ◌+◌, Bool, false, not, ◌&&◌, ◌||◌, Option, none, some, List, [], ◌∷◌, ◌++◌, if◌then◌else◌,
}
use pantau.Common.Text.{Text, codes, teq}
use pantau.Common.Map.{number_key, text_key, pair_key, lookup}
use pantau.Store.{
  DesiredRule, ActualItem, ItemKey, Incident, Alert, Db, list_desired_rules, upsert_actual_item,
  record_incident, create_alert,
}
use pantau.Inspector.Verdicts.{Runner, Verdict, concat, ok, drift}
use pantau.Inspector.Rules.{evaluate_rule}

abbrev pub drift_detected : Text
drift_detected = codes "drift_detected"

abbrev pub drift_resolved : Text
drift_resolved = codes "drift_resolved"

abbrev pub item_key : ℕ → DesiredRule → ItemKey
item_key host_id rule = (host_id, (rule.kind, rule.target))

-- the status of the existing item of a rule, "" if there is none
abbrev pub status_of : Option ActualItem → Text
status_of none = []
status_of (some it) = it.status

unfoldable pub detected : ℕ → DesiredRule → Verdict → Incident
detected host_id rule v = record {
  host_id = host_id;
  kind = rule.kind;
  target = rule.target;
  event_type = drift_detected;
  summary = concat (
      codes "Drift detected: "
      ∷ rule.kind
      ∷ codes " '"
      ∷ rule.target
      ∷ codes "' is "
      ∷ v.current
      ∷ codes " (expected "
      ∷ rule.expected
      ∷ codes ")"
      ∷ []);
  root_cause_excerpt = v.root_cause;
}

unfoldable pub resolved : ℕ → DesiredRule → Verdict → Incident
resolved host_id rule v = record {
  host_id = host_id;
  kind = rule.kind;
  target = rule.target;
  event_type = drift_resolved;
  summary = concat (
      codes "Resolved: "
      ∷ rule.kind
      ∷ codes " '"
      ∷ rule.target
      ∷ codes "' is back to desired state ("
      ∷ v.current
      ∷ codes ")"
      ∷ []);
  root_cause_excerpt = [];
}

abbrev item_of : Verdict → ActualItem
item_of v = record { current = v.current; status = v.status; details = v.details }

-- what the loop does with a rule's verdict
unfoldable pub apply_verdict : ℕ → DesiredRule → Verdict → Db → Db
unfolding upsert_actual_item record_incident create_alert
apply_verdict host_id rule v d =
    let prev = status_of (lookup (item_key host_id rule) d.actual_items) in
    let kept = upsert_actual_item (item_key host_id rule) (item_of v) d in
    let inc = detected host_id rule v in
    let alt : Alert = record {
      host_id = host_id;
      level = codes "critical";
      message = inc.summary;
      root_cause = v.root_cause;
      acknowledged = false;
    } in
    if teq v.status drift && not (teq prev drift)
    then create_alert alt (record_incident inc kept)
    else if teq v.status ok && teq prev drift
    then record_incident (resolved host_id rule v) kept
    else kept

-- the database, driftFound, driftSummaries and checkedCount
pub record Progress : Type 0 where
  pub db : Db
  pub drift_found : Bool
  pub summaries : List Text
  pub checked : ℕ

drift_message : DesiredRule → Verdict → Text
drift_message rule v =
    let msg = concat (rule.kind ∷ codes " '" ∷ rule.target ∷ codes "': " ∷ v.details ∷ []) in
    if teq v.root_cause [] then msg else concat (msg ∷ codes " (" ∷ v.root_cause ∷ codes ")" ∷ [])

-- one round of the loop
unfoldable pub check_rule : Runner → ℕ → DesiredRule → Progress → Progress
unfolding apply_verdict drift_message
check_rule r host_id rule p =
    let v = evaluate_rule r rule in
    let found = teq v.status drift in
    if rule.enabled
    then record {
      db = apply_verdict host_id rule v p.db;
      drift_found = p.drift_found || found;
      summaries = if found then p.summaries ++ drift_message rule v ∷ [] else p.summaries;
      checked = p.checked + 1;
    }
    else p

unfoldable pub check_rules : Runner → ℕ → List DesiredRule → Progress → Progress
check_rules r host_id [] p = p
check_rules r host_id (rule ∷ rules) p = check_rules r host_id rules (check_rule r host_id rule p)

unfoldable pub evaluate_desired_rules : Runner → ℕ → Db → Progress
evaluate_desired_rules r host_id d =
    check_rules r host_id (list_desired_rules host_id d)
      (record { db = d; drift_found = false; summaries = []; checked = 0 })
