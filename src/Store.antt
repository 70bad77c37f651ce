-- ===== src/Store.antt =====
-- internal/store/db.go: the tables that the inspector and the status page share.
-- A query that finds no row gives `none`, the other errors of the database are left out. Rows come
-- in the order that the query's ORDER BY asks for.
use pantau.Common.{
  ℕ, ◌-◌, Bool, true, false, Option, none, some, List, [], ◌∷◌, ◌++◌, ◌==◌, ltb, if◌then◌else◌,
  keep, map, take, not, ◌&&◌,
}
use pantau.Common.Text.{Text, codes, teq}
use pantau.Common.Map.{Map, number_key, text_key, pair_key, store}

pub record DesiredRule : Type 0 where
  pub id : ℕ
  pub host_id : ℕ
  pub kind : Text
  pub target : Text
  pub expected : Text
  pub enabled : Bool

-- host_id, kind, target: the unique key of actual_items
abbrev pub ItemKey : Type 0
ItemKey = ℕ × (Text × Text)

pub record ActualItem : Type 0 where
  pub current : Text
  pub status : Text
  pub details : Text

pub record Incident : Type 0 where
  pub host_id : ℕ
  pub kind : Text
  pub target : Text
  pub event_type : Text
  pub summary : Text
  pub root_cause_excerpt : Text

pub record Alert : Type 0 where
  pub host_id : ℕ
  pub level : Text
  pub message : Text
  pub root_cause : Text
  pub acknowledged : Bool

pub record InspectionRun : Type 0 where
  pub host_id : ℕ
  pub status : Text
  pub summary : Text
  pub details : Text

pub record Db : Type 0 where
  pub host_status : Map ℕ Text
  pub desired_rules : List DesiredRule
  pub actual_items : Map ItemKey ActualItem
  pub incidents : List Incident
  pub alerts : List Alert
  pub runs : List InspectionRun

-- SELECT … FROM desired_rules WHERE host_id = ?
unfoldable pub list_desired_rules : ℕ → Db → List DesiredRule
list_desired_rules host_id d = keep (λ r. r.host_id == host_id) d.desired_rules

-- SELECT … FROM desired_rules WHERE id = ?
unfoldable pub rule_by_id : ℕ → List DesiredRule → Option DesiredRule
rule_by_id id [] = none
rule_by_id id (r ∷ rs) = if r.id == id then some r else rule_by_id id rs

unfoldable pub upsert_actual_item : ItemKey → ActualItem → Db → Db
upsert_actual_item key item d = record d { actual_items = store key item d.actual_items }

-- the newest row stands last
unfoldable pub record_incident : Incident → Db → Db
record_incident inc d = record d { incidents = d.incidents ++ inc ∷ [] }

unfoldable pub create_alert : Alert → Db → Db
create_alert alt d = record d { alerts = d.alerts ++ alt ∷ [] }

abbrev acknowledge : ℕ → Alert → Alert
acknowledge host_id a = if a.host_id == host_id then record a { acknowledged = true } else a

unfoldable pub acknowledge_host_alerts : ℕ → Db → Db
acknowledge_host_alerts host_id d = record d { alerts = map (acknowledge host_id) d.alerts }

-- UPDATE hosts SET status = … WHERE id = ?, for a host that is there; the metrics columns are left
-- out
unfoldable pub update_host_status : ℕ → Text → Db → Db
update_host_status host_id status d = record d { host_status = store host_id status d.host_status }

-- the newest `n` rows that pass a test, of rows of which the newest stands first
unfoldable pub newest : ℕ → (InspectionRun → Bool) → List InspectionRun → List InspectionRun
newest n p [] = []
newest n p (r ∷ rs) =
    let rest = newest n p rs in
    let fewer = newest (n - 1) p rs in
    if p r then (if ltb 0 n then r ∷ fewer else fewer) else r ∷ rest

abbrev is_run : ℕ → Bool → InspectionRun → Bool
is_run host_id ok r =
    r.host_id == host_id
    && (if ok then teq r.status (codes "ok") else not (teq r.status (codes "ok")))

-- the newest row stands first, and of a host's rows a hundred with status ok stay, and a hundred of
-- the others
unfoldable pub record_inspection_run : InspectionRun → Db → Db
unfolding newest
record_inspection_run run d = record d {
  runs =
      newest 100 (is_run run.host_id false) (newest 100 (is_run run.host_id true) (run ∷ d.runs));
}

unfoldable pub list_inspection_runs : ℕ → ℕ → Db → List InspectionRun
list_inspection_runs host_id limit d = take limit (keep (λ r. r.host_id == host_id) d.runs)
