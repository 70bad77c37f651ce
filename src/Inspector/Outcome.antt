-- ===== src/Inspector/Outcome.antt =====
-- internal/inspector/inspector.go: InspectHostWithTimeout, without the metrics that it gathers. The
-- entry of a host in flight appears as a Boolean, and the store answers without errors.
pub mod Healthy
use pantau.Common.{
  ℕ, ◌≡◌, ap, ◌∙◌, Bool, ◌&&◌, ◌||◌, Option, none, some, List, [], ◌∷◌, if◌then◌else◌, length,
  some_of, Bool-cases, inl, inr, arith, Option-cases,
}
use pantau.Common.Text.{Text, codes, teq, join}
use pantau.Common.Numerals.{itoa}
use pantau.Common.Map.{number_key, lookup, lookup-store_self}
use pantau.Store.{
  DesiredRule, Db, update_host_status, record_inspection_run, acknowledge_host_alerts,
  list_desired_rules,
}
use pantau.Inspector.Verdicts.{Runner, concat, drift}
use pantau.Inspector.Rules.{evaluate_rule}
use pantau.Inspector.Drift.{Progress, check_rule, check_rules, evaluate_desired_rules}

-- How an inspection goes: an error of the connection, an error of the scrape, and whether the
-- deadline had passed after the scrape and after the rules. `timeout` is the budget as it prints.
pub record Attempt : Type 0 where
  pub connect_error : Option Text
  pub scrape_error : Option Text
  pub late_scrape : Bool
  pub late_rules : Bool
  pub timeout : Text

abbrev pub deadline_exceeded : Text
deadline_exceeded = codes "context deadline exceeded"

-- the status of the host, then the run's row
unfoldable pub finish : ℕ → Text → Text → Text → Text → Db → Db
unfolding update_host_status record_inspection_run
finish host_id host_status status summary details d =
    record_inspection_run
      (record { host_id = host_id; status = status; summary = summary; details = details })
      (update_host_status host_id host_status d)

abbrev timed_out : Attempt → Text
timed_out a = concat (codes "Inspection timed out after " ∷ a.timeout ∷ [])

abbrev cancelled : Text
cancelled = codes "Inspection cancelled: context deadline exceeded"

failed_scrape : Attempt → ℕ → Text → Db → Db
unfolding finish
failed_scrape a host_id err d =
    if a.late_scrape
    then finish host_id (codes "down") (codes "down") (timed_out a) cancelled d
    else finish host_id (codes "degraded") (codes "degraded")
        (codes "Failed to scrape system metrics") err d

-- the end of an inspection that was in time
completed : ℕ → Progress → Db
unfolding finish acknowledge_host_alerts
completed host_id p =
    if p.drift_found
    then finish host_id (codes "degraded") drift
        (concat (codes "Drift detected in " ∷ itoa (length p.summaries) ∷ codes " rule(s)" ∷ []))
        (join (codes "\n") p.summaries) p.db
    else finish host_id (codes "healthy") (codes "ok")
        (concat (codes "Healthy (" ∷ itoa p.checked ∷ codes " rules checked)" ∷ [])) []
        (acknowledge_host_alerts host_id p.db)

after_scrape : Runner → Attempt → ℕ → Db → Db × Option Text
unfolding finish completed
after_scrape r a host_id d =
    let p = evaluate_desired_rules r host_id d in
    if a.late_rules
    then (
      finish host_id (codes "down") (codes "down") (timed_out a) cancelled p.db,
      some deadline_exceeded,
    )
    else (completed host_id p, none)

connected : Runner → Attempt → ℕ → Db → Db × Option Text
unfolding failed_scrape after_scrape
connected r a host_id d = elim a.scrape_error [
  | some err ↦ (failed_scrape a host_id err d, some err)
  | none ↦
      if a.late_scrape
      then (failed_scrape a host_id deadline_exceeded d, some deadline_exceeded)
      else after_scrape r a host_id d
]

abbrev pub already_inspecting : Text
already_inspecting = codes "inspection already in progress for this host"

-- the part behind the guard; the error that is returned, if there is one
unfoldable pub inspect_free : Runner → Attempt → ℕ → Db → Db × Option Text
unfolding connected finish
inspect_free r a host_id d = elim (lookup host_id d.host_status) [
  | none ↦ (d, some (concat (codes "host " ∷ itoa host_id ∷ codes " not found" ∷ [])))
  | some status ↦ elim a.connect_error [
    | some err ↦ (
      finish host_id (codes "down") (codes "down") (codes "SSH connection failed") err d,
      some err,
    )
    | none ↦ connected r a host_id d
  ]
]

-- InspectHostWithTimeout: `loaded` says that another inspection of the host holds its entry in flight
unfoldable pub inspect_host : Runner → Attempt → Bool → ℕ → Db → Db × Option Text
unfolding inspect_free
inspect_host r a loaded host_id d =
    let done = inspect_free r a host_id d in if loaded then (d, some already_inspecting) else done

-- A rule that is enabled and whose verdict is drift.
abbrev pub drifts : Runner → DesiredRule → Bool
drifts r rule = rule.enabled && teq (evaluate_rule r rule).status drift

check_rules-drift_found :
    (r : Runner) (host_id : ℕ) (rules : List DesiredRule) (p : Progress)
    → (check_rules r host_id rules p).drift_found ≡ (p.drift_found || some_of (drifts r) rules)
unfolding check_rules check_rule
check_rules-drift_found r host_id [] p = ground arith
check_rules-drift_found r host_id (rule ∷ rules) p =
    ground (arith, check_rules-drift_found r host_id rules (check_rule r host_id rule p))

-- The status that an inspection stores for a host.
abbrev pub expected_status : Attempt → Bool → Text
expected_status a drifting = elim a.connect_error [
  | some err ↦ codes "down"
  | none ↦ if a.late_scrape then codes "down" else elim a.scrape_error [
    | some err ↦ codes "degraded"
    | none ↦
        if a.late_rules
        then codes "down"
        else if drifting
        then codes "degraded"
        else codes "healthy"
  ]
]

finish-status :
    (host_id : ℕ) (host_status status summary details : Text) (d : Db)
    → lookup host_id (finish host_id host_status status summary details d).host_status
      ≡ some host_status
unfolding finish record_inspection_run update_host_status
finish-status host_id host_status status summary details d =
    lookup-store_self host_id host_status d.host_status

failed_scrape-status :
    (a : Attempt) (host_id : ℕ) (err : Text) (d : Db)
    → lookup host_id (failed_scrape a host_id err d).host_status
      ≡ some (if a.late_scrape then codes "down" else codes "degraded")
unfolding failed_scrape
failed_scrape-status a host_id err d = elim (Bool-cases a.late_scrape) [
  | inl late ↦ rw (late, failed_scrape) (search finish-status)
  | inr early ↦ rw (early, failed_scrape) (search finish-status)
]

completed-status :
    (host_id : ℕ) (p : Progress)
    → lookup host_id (completed host_id p).host_status
      ≡ some (if p.drift_found then codes "degraded" else codes "healthy")
unfolding completed
completed-status host_id p = elim (Bool-cases p.drift_found) [
  | inl found ↦ rw (found, completed) (search finish-status)
  | inr clean ↦ rw (clean, completed) (search finish-status)
]

after_scrape-status :
    (r : Runner) (a : Attempt) (host_id : ℕ) (d : Db)
    → lookup host_id (after_scrape r a host_id d).0.host_status
      ≡ some (
          if a.late_rules
          then codes "down"
          else if some_of (drifts r) (list_desired_rules host_id d)
          then codes "degraded"
          else codes "healthy")
unfolding after_scrape evaluate_desired_rules
after_scrape-status r a host_id d = elim (Bool-cases a.late_rules) [
  | inl late ↦ rw (late, after_scrape) (search finish-status)
  | inr early ↦
      rw (early, after_scrape)
        (completed-status host_id (evaluate_desired_rules r host_id d)
          ∙ ap (λ b. some (if b then codes "degraded" else codes "healthy"))
              (check_rules-drift_found r host_id (list_desired_rules host_id d) _))
]

-- The status that an inspection leaves, where no other one runs.
pub inspect_free-status :
    (r : Runner) (a : Attempt) (host_id : ℕ) (before : Text) (d : Db)
    → lookup host_id d.host_status ≡ some before
    → lookup host_id (inspect_free r a host_id d).0.host_status
      ≡ some (expected_status a (some_of (drifts r) (list_desired_rules host_id d)))
unfolding inspect_free connected
inspect_free-status r a host_id before d there = elim (Option-cases a.connect_error) [
  | inr (err, refused) ↦ rw (there, refused, inspect_free, expected_status) (search finish-status)
  | inl up ↦ elim (Option-cases a.scrape_error) [
    | inr (err, failed) ↦
        rw (there, up, failed, inspect_free, connected, expected_status)
          (failed_scrape-status a host_id err d)
    | inl scraped ↦ elim (Bool-cases a.late_scrape) [
      | inl late ↦
          rw (there, up, scraped, late, inspect_free, connected, expected_status)
            (lookup-store_self host_id (codes "down") d.host_status)
      | inr early ↦
          rw (there, up, scraped, early, inspect_free, connected, expected_status)
            (after_scrape-status r a host_id d)
    ]
  ]
]
