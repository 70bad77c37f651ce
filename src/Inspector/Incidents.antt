-- ===== src/Inspector/Incidents.antt =====
-- The drift incidents of an item, over any checks.
use mathlib.Core.Path.{subst}
use pantau.Common.{
  ℕ, ◌≡◌, refl, sym, ap, ◌∙◌, ◌⊎◌, inl, inr, Bool, true, false, not, ◌&&◌, Option, none, some, List,
  [], ◌∷◌, ◌++◌, if◌then◌else◌, append-nil, arith, Bool-cases,
}
use pantau.Common.Text.{Text, teq, teq_refl}
use pantau.Common.Map.{number_key, text_key, pair_key, same_pair_iff, lookup, lookup-store}
use pantau.Store.{
  list_desired_rules, DesiredRule, ItemKey, Incident, Db, upsert_actual_item, record_incident,
  create_alert,
}
use pantau.Inspector.Verdicts.{Runner, Verdict, ok, drift, passes, fails}
use pantau.Inspector.Files.{evaluate_disk, evaluate_backup, evaluate_usage, evaluate_file}
use pantau.Inspector.Rules.{
  evaluate_rule, evaluate_container, evaluate_cron, evaluate_service, evaluate_port,
  evaluate_process, expectation, unknown_kind,
}
use pantau.Inspector.Drift.{
  drift_detected, drift_resolved, item_key, status_of, detected, resolved, apply_verdict, Progress,
  check_rule, check_rules, evaluate_desired_rules,
}

-- A verdict is one of the two.
abbrev IsVerdict : Verdict → Type 0
IsVerdict v = (v.status ≡ ok) ⊎ (v.status ≡ drift)

-- Every kind of rule, on whatever the host answers, evaluates to "ok" or to "drift".
pub evaluate_rule_status : (r : Runner) (rule : DesiredRule) → IsVerdict (evaluate_rule r rule)
unfolding evaluate_rule evaluate_container evaluate_cron evaluate_service evaluate_port
    evaluate_process expectation evaluate_disk evaluate_usage evaluate_backup evaluate_file passes
    fails unknown_kind
evaluate_rule_status r rule = ground arith

abbrev key_of : Incident → ItemKey
key_of inc = (inc.host_id, (inc.kind, inc.target))

-- Whether a drift is open after one more incident; `none` once a drift was opened or resolved twice.
abbrev follow : Option Bool → Text → Option Bool
follow none e = none
follow (some false) e = if teq e drift_detected then some true else none
follow (some true) e = if teq e drift_resolved then some false else none

-- The incidents of an item, read one after another.
unfoldable pub open_drift : ItemKey → Option Bool → List Incident → Option Bool
open_drift key o [] = o
open_drift key o (inc ∷ incs) =
    let next = follow o inc.event_type in
    open_drift key (if pair_key.same (key_of inc) key then next else o) incs

open_drift-append :
    (key : ItemKey) (xs ys : List Incident) (o : Option Bool)
    → open_drift key o (xs ++ ys) ≡ open_drift key (open_drift key o xs) ys
unfolding open_drift
open_drift-append key [] ys o = refl
open_drift-append key (x ∷ xs) ys o = open_drift-append key xs ys _

-- The incidents of an item open and resolve its drift in turns, and its row says which came last.
abbrev pub IsTracked : ItemKey → Db → Type 0
IsTracked key d =
    open_drift key (some false) d.incidents
    ≡ some (teq (status_of (lookup key d.actual_items)) drift)

-- The incidents that a verdict adds.
news : ℕ → DesiredRule → Verdict → Text → List Incident
news host_id rule v prev =
    if teq v.status drift && not (teq prev drift)
    then detected host_id rule v ∷ []
    else if teq v.status ok && teq prev drift
    then resolved host_id rule v ∷ []
    else []

apply_verdict-incidents :
    (host_id : ℕ) (rule : DesiredRule) (v : Verdict) (d : Db)
    → (apply_verdict host_id rule v d).incidents
      ≡ d.incidents
        ++ news host_id rule v (status_of (lookup (item_key host_id rule) d.actual_items))
unfolding apply_verdict upsert_actual_item record_incident create_alert news
apply_verdict-incidents host_id rule v d = ground (arith, append-nil d.incidents)

apply_verdict-status :
    (host_id : ℕ) (rule : DesiredRule) (v : Verdict) (key : ItemKey) (d : Db)
    → status_of (lookup key (apply_verdict host_id rule v d).actual_items) ≡ (
        if pair_key.same (item_key host_id rule) key
        then v.status
        else status_of (lookup key d.actual_items))
unfolding apply_verdict upsert_actual_item record_incident create_alert
apply_verdict-status host_id rule v key d = ground (
  arith,
  lookup-store (item_key host_id rule) key
      (record { current = v.current; status = v.status; details = v.details }) d.actual_items,
)

not_drift : teq ok drift ≡ false
unfolding teq
not_drift = refl

not_resolved : teq drift_resolved drift_detected ≡ false
unfolding teq
not_resolved = refl

at_key :
    (m b : Bool) (e : Text) (c : Bool)
    → (m ≡ true → follow (some b) e ≡ some c)
    → (if m then follow (some b) e else some b) ≡ some (if m then c else b)
at_key true b e c h = h refl
at_key false b e c h = refl

no_news : (m b c : Bool) → (m ≡ true → b ≡ c) → some b ≡ some (if m then c else b)
no_news true b c h = ap some (h refl)
no_news false b c h = refl

-- What a verdict's incidents do to a drift that is open as its item says.
open_drift-news :
    (host_id : ℕ) (rule : DesiredRule) (v : Verdict) (prev : Text) (key : ItemKey) (b : Bool)
    → IsVerdict v
    → (pair_key.same (item_key host_id rule) key ≡ true → b ≡ teq prev drift)
    → open_drift key (some b) (news host_id rule v prev)
      ≡ some (if pair_key.same (item_key host_id rule) key then teq v.status drift else b)
unfolding open_drift news detected resolved teq
open_drift-news host_id rule v prev key b (inl good) at = elim (Bool-cases (teq prev drift)) [
  | inl was ↦
      let added : news host_id rule v prev ≡ resolved host_id rule v ∷ [] =
        ground (arith, good, was, not_drift, teq_refl ok) in
      ap (open_drift key (some b)) added
      ∙ at_key (pair_key.same (item_key host_id rule) key) b drift_resolved (teq v.status drift)
          (λ m. rw (at m, was, good, not_drift) refl)
  | inr shut ↦
      let added : news host_id rule v prev ≡ [] =
        ground (arith, good, shut, not_drift, teq_refl ok) in
      ap (open_drift key (some b)) added
      ∙ no_news (pair_key.same (item_key host_id rule) key) b (teq v.status drift)
          (λ m. rw (at m, shut, good, not_drift) refl)
]
open_drift-news host_id rule v prev key b (inr bad) at = elim (Bool-cases (teq prev drift)) [
  | inl was ↦
      let added : news host_id rule v prev ≡ [] =
        ground (arith, bad, was, not_drift, teq_refl drift) in
      ap (open_drift key (some b)) added
      ∙ no_news (pair_key.same (item_key host_id rule) key) b (teq v.status drift)
          (λ m. rw (at m, was, bad, teq_refl drift) refl)
  | inr shut ↦
      let added : news host_id rule v prev ≡ detected host_id rule v ∷ [] =
        ground (arith, bad, shut, not_drift, teq_refl drift) in
      ap (open_drift key (some b)) added
      ∙ at_key (pair_key.same (item_key host_id rule) key) b drift_detected (teq v.status drift)
          (λ m. rw (at m, shut, bad, teq_refl drift) refl)
]

apply_verdict-IsTracked :
    (host_id : ℕ) (rule : DesiredRule) (v : Verdict) (key : ItemKey) (d : Db)
    → IsVerdict v
    → IsTracked key d
    → IsTracked key (apply_verdict host_id rule v d)
apply_verdict-IsTracked host_id rule v key d h t =
    let added = news host_id rule v (status_of (lookup (item_key host_id rule) d.actual_items)) in
    ap (open_drift key (some false)) (apply_verdict-incidents host_id rule v d)
    ∙ open_drift-append key d.incidents added (some false)
    ∙ ap (λ o. open_drift key o added) t
    ∙ open_drift-news host_id rule v (status_of (lookup (item_key host_id rule) d.actual_items)) key
        (teq (status_of (lookup key d.actual_items)) drift) h
        (λ m.
          ap (λ k. teq (status_of (lookup k d.actual_items)) drift)
            (sym ((same_pair_iff (item_key host_id rule) key).0 m)))
    ∙ ap some (
        choose (pair_key.same (item_key host_id rule) key)
        ∙ ap (λ s. teq s drift) (sym (apply_verdict-status host_id rule v key d)))
  where
    choose :
        (m : Bool)
        → (if m then teq v.status drift else teq (status_of (lookup key d.actual_items)) drift)
          ≡ teq (if m then v.status else status_of (lookup key d.actual_items)) drift
    choose true = refl
    choose false = refl

check_rule-db :
    (r : Runner) (host_id : ℕ) (rule : DesiredRule) (p : Progress)
    → (check_rule r host_id rule p).db
      ≡ (if rule.enabled then apply_verdict host_id rule (evaluate_rule r rule) p.db else p.db)
unfolding check_rule
check_rule-db r host_id rule p = elim (Bool-cases rule.enabled) [
  | inl on ↦ rw (on, check_rule) refl
  | inr off ↦ rw (off, check_rule) refl
]

check_rules-IsTracked :
    (r : Runner) (host_id : ℕ) (rules : List DesiredRule) (key : ItemKey) (p : Progress)
    → IsTracked key p.db
    → IsTracked key (check_rules r host_id rules p).db
unfolding check_rules
check_rules-IsTracked r host_id [] key p t = t
check_rules-IsTracked r host_id (rule ∷ rules) key p t =
    check_rules-IsTracked r host_id rules key (check_rule r host_id rule p)
      (subst (IsTracked key) (sym (check_rule-db r host_id rule p)) (one rule.enabled))
  where
    one :
        (on : Bool)
        → IsTracked key
            (if on then apply_verdict host_id rule (evaluate_rule r rule) p.db else p.db)
    one true =
        apply_verdict-IsTracked host_id rule (evaluate_rule r rule) key p.db
          (evaluate_rule_status r rule) t
    one false = t

-- The incidents of every item open and resolve its drift in turns, the stored status of the item
-- says which came last, and a check of any host's rules keeps this so, whatever the host answers.
pub evaluate_desired_rules-IsTracked :
    (r : Runner) (host_id : ℕ) (key : ItemKey) (d : Db)
    → IsTracked key d
    → IsTracked key (evaluate_desired_rules r host_id d).db
unfolding evaluate_desired_rules
evaluate_desired_rules-IsTracked r host_id key d t =
    check_rules-IsTracked r host_id (list_desired_rules host_id d) key _ t
