-- ===== src/StatusPage/Targets.antt =====
-- The status of a target: as the public page shows it (GetPublicStatusSummary), and as an inspection
-- records it (updateStatusPageRollups).
pub mod Honest
use pantau.Common.{
  ℕ, zero, suc, Bool, true, false, not, ◌&&◌, ◌||◌, Option, none, some, List, [], ◌∷◌, ◌==◌,
  if◌then◌else◌, keep,
}
use pantau.Common.Text.{Text, codes, teq, equal_fold}
use pantau.Common.Map.{number_key, text_key, pair_key, lookup}
use pantau.Store.{DesiredRule, ActualItem, InspectionRun, Db, rule_by_id, list_inspection_runs}
use pantau.StatusPage.{
  Status, operational, degraded, outage, Rollups, RollupKey, record_daily_rollup,
}

-- "host", "desired_rule", and any other text
pub data TargetType : Type 0 where
  host desired_rule other_type : TargetType

pub record Target : Type 0 where
  pub id : ℕ
  pub target_type : TargetType
  pub host_id : ℕ
  pub desired_rule_id : Option ℕ
  pub enabled : Bool

-- of a host's status
unfoldable pub host_target_status : Text → Status
host_target_status s =
    if teq s (codes "down")
    then outage
    else if teq s (codes "degraded") || teq s (codes "unknown")
    then degraded
    else operational

abbrev pub is_vital : Text → Bool
is_vital kind =
    teq kind (codes "service")
    || teq kind (codes "port")
    || teq kind (codes "container")
    || teq kind (codes "process")

-- of an item's stored status against the rule's expectation
unfoldable pub item_status : Text → Text → Option ActualItem → Status
item_status kind expected none = operational
item_status kind expected (some it) =
    if not (teq it.status [])
      && not (equal_fold it.status expected)
      && not (teq it.status (codes "running"))
      && not (teq it.status (codes "active"))
    then (if is_vital kind then outage else degraded)
    else operational

-- kind, target, expected
unfoldable pub columns_status : Db → ℕ → Text → Text → Text → Status
unfolding item_status
columns_status d host_id kind target expected =
    let otherwise = item_status kind expected (lookup (host_id, (kind, target)) d.actual_items) in
    elim (lookup host_id d.host_status) [
      | none ↦ otherwise
      | some s ↦ if teq s (codes "down") then outage else otherwise
    ]

-- The columns of a rule that is not found stay empty.
unfoldable pub rule_target_status : Db → ℕ → ℕ → Status
unfolding columns_status
rule_target_status d host_id rule_id = elim (rule_by_id rule_id d.desired_rules) [
  | none ↦ columns_status d host_id [] [] []
  | some r ↦ columns_status d host_id r.kind r.target r.expected
]

-- currentStatus
unfoldable pub live_status : Db → Target → Status
unfolding host_target_status rule_target_status
live_status d t = elim t.target_type [
  | host ↦ elim (lookup t.host_id d.host_status) [
    | none ↦ operational
    | some s ↦ host_target_status s
  ]
  | desired_rule ↦ elim t.desired_rule_id [
    | none ↦ operational
    | some rule_id ↦ rule_target_status d t.host_id rule_id
  ]
  | other_type ↦ operational
]

-- the newest run is down and the one before it is not
unfoldable pub first_down : List InspectionRun → Bool
first_down (a ∷ b ∷ runs) = teq a.status (codes "down") && not (teq b.status (codes "down"))
first_down _ = false

-- the status that an inspection records for a target of its host, whose status it has set
unfoldable pub rollup_status : Db → Text → Target → Status
unfolding host_target_status item_status first_down
rollup_status d host_status t = elim t.target_type [
  | host ↦
      if teq host_status (codes "down")
      then (if first_down (list_inspection_runs t.host_id 2 d) then degraded else outage)
      else host_target_status host_status
  | desired_rule ↦ elim t.desired_rule_id [
    | none ↦ operational
    | some rule_id ↦
        if teq host_status (codes "down")
        then outage
        else elim (rule_by_id rule_id d.desired_rules) [
          | none ↦ operational
          | some r ↦
              item_status r.kind r.expected (lookup (t.host_id, (r.kind, r.target)) d.actual_items)
        ]
  ]
  | other_type ↦ operational
]

-- GetActiveStatusPageTargetsForHost
unfoldable pub active_targets : ℕ → List Target → List Target
active_targets host_id ts = keep (λ t. t.host_id == host_id && t.enabled) ts

record_targets : Db → Text → ℕ → List Target → Rollups → Rollups
record_targets d host_status today [] rows = rows
record_targets d host_status today (t ∷ ts) rows =
    record_targets d host_status today ts
      (record_daily_rollup (t.id, today) (rollup_status d host_status t) rows)

unfoldable pub update_status_page_rollups : Db → ℕ → Text → ℕ → List Target → Rollups → Rollups
unfolding record_targets
update_status_page_rollups d host_id host_status today ts rows =
    record_targets d host_status today (active_targets host_id ts) rows
