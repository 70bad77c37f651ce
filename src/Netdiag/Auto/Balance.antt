-- ===== src/Netdiag/Auto/Balance.antt =====
-- The alerts about a preset open and close its incidents in turn.
use pantau.Common.{
  ◌||◌, ℕ, ◌+◌, ◌-◌, ◌≡◌, refl, Bool, true, false, not, List, [], ◌∷◌, ◌==◌, arith, if◌then◌else◌,
  inl, inr, Option-cases, Bool-cases, ==_iff,
}
use pantau.Common.Map.{number_key, lookup, store, lookup-store}
use pantau.Netdiag.Verdict.{TriageVerdict}
use pantau.Common.Int.{pos_part}
use pantau.Common.Numerals.{atoi}
use pantau.Netdiag.Parsers.{int_or_zero}
use pantau.Netdiag.Auto.{
  is_waiting, interval_of, source_of, fallback_host, is_incident, Alert, incident, reminder,
  recovery, observe, AutoPreset, HostRow, Settings, AutoState, state_of, send, Triage, cycle_preset,
  cycle_presets, run_cycle,
}

abbrev pub opens : Alert → ℕ
opens incident = 1
opens (reminder d) = 0
opens (recovery d) = 0

abbrev pub closes : Alert → ℕ
closes incident = 0
closes (reminder d) = 0
closes (recovery d) = 1

-- The sum of a number over the alerts of one preset.
abbrev pub total_of : (Alert → ℕ) → ℕ → List (ℕ × Alert) → ℕ
total_of f id [] = 0
total_of f id ((k, a) ∷ sent) =
    let rest = total_of f id sent in if k == id then f a + rest else rest

abbrev pub as_number : Bool → ℕ
as_number true = 1
as_number false = 0

-- As many incidents were announced as recoveries, and one more while the last verdict is not healthy.
abbrev pub IsBalanced : ℕ → AutoState → Type 0
IsBalanced id a =
    total_of opens id a.sent
    ≡ total_of closes id a.sent + as_number (is_incident (state_of id a).last_verdict)

observed-IsBalanced :
    (id k since now : ℕ) (v : TriageVerdict) (a : AutoState)
    → IsBalanced id a
    → IsBalanced id (record {
      target_states = store k (observe since now v (state_of k a)).0 a.target_states;
      sent = send k (observe since now v (state_of k a)).1 a.sent;
    })
unfolding observe
observed-IsBalanced id k since now v a h = elim (Bool-cases (k == id)) [
  | inl t ↦ ground (
    arith,
    t,
    h,
    (==_iff k id).0 t,
    lookup-store k id (observe since now v (state_of k a)).0 a.target_states,
  )
  | inr f ↦
      ground (arith, f, h, lookup-store k id (observe since now v (state_of k a)).0 a.target_states)
]

known-IsBalanced :
    (id k : ℕ) (a : AutoState)
    → IsBalanced id a
    → IsBalanced id (record a { target_states = store k (state_of k a) a.target_states })
known-IsBalanced id k a h =
    ground (arith, h, (==_iff k id).0, lookup-store k id (state_of k a) a.target_states)

cycle_preset-IsBalanced :
    (triage : Triage) (c : Settings) (fallback now : ℕ) (p : AutoPreset) (a : AutoState) (id : ℕ)
    → IsBalanced id a
    → IsBalanced id (cycle_preset triage c fallback now p a)
unfolding cycle_preset
cycle_preset-IsBalanced triage c fallback now p a id h =
    let host = source_of (pos_part (int_or_zero (atoi c.default_host))) fallback p.source_host in
    let s = state_of p.id a in
    elim (Bool-cases (not p.enabled || host == 0)) [
      | inl off ↦ rw (cycle_preset, off) h
      | inr on ↦ elim (Bool-cases (is_waiting (interval_of c) now s)) [
        | inl waits ↦ rw (cycle_preset, on, waits) (known-IsBalanced id p.id a h)
        | inr due ↦ elim (Option-cases (triage host p.id)) [
          | inl n ↦ rw (cycle_preset, on, due, n) (known-IsBalanced id p.id a h)
          | inr ((v, after), e) ↦
              rw (cycle_preset, on, due, e)
                (observed-IsBalanced id p.id (now - s.last_alert) after v a h)
        ]
      ]
    ]

cycle_presets-IsBalanced :
    (triage : Triage) (c : Settings) (fallback now : ℕ) (ps : List AutoPreset) (a : AutoState)
    (id : ℕ)
    → IsBalanced id a
    → IsBalanced id (cycle_presets triage c fallback now ps a)
unfolding cycle_presets
cycle_presets-IsBalanced triage c fallback now [] a id h = h
cycle_presets-IsBalanced triage c fallback now (p ∷ ps) a id h =
    cycle_presets-IsBalanced triage c fallback now ps (cycle_preset triage c fallback now p a) id
      (cycle_preset-IsBalanced triage c fallback now p a id h)

-- A cycle with its surroundings: what the triages give, the settings, the hosts, the time and the
-- presets.
pub record Cycle : Type 0 where
  pub triage : Triage
  pub settings : Settings
  pub hosts : List HostRow
  pub now : ℕ
  pub presets : List AutoPreset

unfoldable pub run_cycles : List Cycle → AutoState → AutoState
run_cycles [] a = a
run_cycles (c ∷ cs) a = run_cycles cs (run_cycle c.triage c.settings c.hosts c.now c.presets a)

run_cycle-IsBalanced :
    (c : Cycle) (a : AutoState) (id : ℕ)
    → IsBalanced id a
    → IsBalanced id (run_cycle c.triage c.settings c.hosts c.now c.presets a)
unfolding run_cycle
run_cycle-IsBalanced c a id h =
    let kept =
      cycle_presets-IsBalanced c.triage c.settings (fallback_host c.hosts) c.now c.presets a id h in
    ground (arith, kept, h)

kept_by_cycles :
    (cs : List Cycle) (a : AutoState) (id : ℕ) → IsBalanced id a → IsBalanced id (run_cycles cs a)
unfolding run_cycles
kept_by_cycles [] a id h = h
kept_by_cycles (c ∷ cs) a id h = kept_by_cycles cs _ id (run_cycle-IsBalanced c a id h)

abbrev pub fresh : AutoState
fresh = record { target_states = []; sent = [] }

-- After any cycles from the start of the service, as many recoveries of a preset have been sent as
-- incidents, and one less exactly while its last verdict is not healthy.
pub run_cycles-IsBalanced : (cs : List Cycle) (id : ℕ) → IsBalanced id (run_cycles cs fresh)
unfolding lookup
run_cycles-IsBalanced cs id = kept_by_cycles cs fresh id refl
