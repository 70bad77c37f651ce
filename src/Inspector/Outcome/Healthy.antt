-- ===== src/Inspector/Outcome/Healthy.antt =====
-- When a host is healthy.
use pantau.Common.{
  ℕ, ◌≡◌, ◌≢◌, ◌↔◌, refl, ap, sym, ◌∙◌, Bool, true, false, none, some, List, [], ◌∷◌, some_of, All,
  Bool-cases, inl, inr, arith,
}
use pantau.Common.Text.{Text, codes, teq, teq_iff}
use pantau.Common.Map.{number_key, lookup}
use pantau.Store.{DesiredRule, Db, list_desired_rules}
use pantau.Inspector.Verdicts.{Runner, drift}
use pantau.Inspector.Rules.{evaluate_rule}
use pantau.Inspector.Outcome.{
  Attempt, inspect_host, inspect_free-status, expected_status, drifts, already_inspecting,
}

-- A rule that is disabled, or whose verdict is no drift.
abbrev pub IsMet : Runner → DesiredRule → Type 0
IsMet r rule = rule.enabled ≡ true → (evaluate_rule r rule).status ≢ drift

-- The connection and the scrape succeeded, the deadline had passed neither after the scrape nor after
-- the rules, and every rule is met.
abbrev pub IsHealthy : Runner → Attempt → List DesiredRule → Type 0
IsHealthy r a rules =
    (a.connect_error ≡ none)
    × (a.scrape_error ≡ none)
    × (a.late_scrape ≡ false)
    × (a.late_rules ≡ false)
    × All (IsMet r) rules

All-IsMet :
    (r : Runner) (rules : List DesiredRule)
    → (some_of (drifts r) rules ≡ false) ↔ All (IsMet r) rules
All-IsMet r [] = (λ h. tt, λ h. refl)
All-IsMet r (rule ∷ rules) =
    let more = All-IsMet r rules in
    let same = teq_iff (evaluate_rule r rule).status drift in
    (
      λ h. (λ on e. ground (arith, h, on, same.1 e), more.0 (ground (arith, h))),
      λ m.
          let rest = more.1 m.1 in
          elim (Bool-cases rule.enabled) [
            | inr off ↦ ground (arith, off, rest)
            | inl on ↦ elim (Bool-cases (teq (evaluate_rule r rule).status drift)) [
              | inl e ↦ absurd (m.0 on (same.0 e))
              | inr n ↦ ground (arith, n, rest)
            ]
          ],
    )

expected_healthy :
    (a : Attempt) (drifting : Bool)
    → (expected_status a drifting ≡ codes "healthy") ↔ (
        (a.connect_error ≡ none)
        × (a.scrape_error ≡ none)
        × (a.late_scrape ≡ false)
        × (a.late_rules ≡ false)
        × (drifting ≡ false))
expected_healthy a drifting = ground arith

-- An inspection of a known host leaves it healthy exactly if the connection and the scrape succeed, the
-- deadline has passed neither at the check after the scrape nor at the one after the rules, and no
-- enabled rule of the host gives a drift. While another inspection of the host runs, it stores nothing
-- and returns an error.
pub inspect_host-IsHealthy :
    (r : Runner) (a : Attempt) (host_id : ℕ) (before : Text) (d : Db)
    → lookup host_id d.host_status ≡ some before
    → ((lookup host_id (inspect_host r a false host_id d).0.host_status ≡ some (codes "healthy"))
        ↔ IsHealthy r a (list_desired_rules host_id d))
      × (inspect_host r a true host_id d ≡ (d, some already_inspecting))
unfolding inspect_host
inspect_host-IsHealthy r a host_id before d there =
    let drifting = some_of (drifts r) (list_desired_rules host_id d) in
    let stored = inspect_free-status r a host_id before d there in
    let clear = expected_healthy a drifting in
    let met = All-IsMet r (list_desired_rules host_id d) in
    (
      (
        λ h. let c = clear.0 (ground (arith, sym stored ∙ h)) in (c.0, c.1, c.2, c.3, met.0 c.4),
        λ h. stored ∙ ap some (clear.1 (h.0, h.1, h.2, h.3, met.1 h.4)),
      ),
      refl,
    )
