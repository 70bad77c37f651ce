-- ===== src/Transfer/Tally.antt =====
-- The steps of a transfer that completes.
use pantau.Common.{ℕ, suc, ◌-◌, ◌≤◌, ◌≡◌, Bool, true, false, List, [], ◌∷◌}
use pantau.Transfer.{
  JobStatus, Run, starting, inspecting, streaming, checking, ended, completed, Event, connects,
  inspects, pipe_ends, receives, verifies,
}

-- How often each step of the goroutines was taken.
abbrev pub connections : List Event → ℕ
connections [] = 0
connections (e ∷ es) = let n = connections es in elim e [ connects err now ↦ suc n | _ ↦ n ]

abbrev pub inspections : List Event → ℕ
inspections [] = 0
inspections (e ∷ es) = let n = inspections es in elim e [ inspects a b c ↦ suc n | _ ↦ n ]

abbrev pub pipes_ended : List Event → ℕ
pipes_ended [] = 0
pipes_ended (e ∷ es) = let n = pipes_ended es in elim e [ pipe_ends err ↦ suc n | _ ↦ n ]

abbrev pub results_received : List Event → ℕ
results_received [] = 0
results_received (e ∷ es) = let n = results_received es in elim e [ receives now ↦ suc n | _ ↦ n ]

abbrev pub verifications : List Event → ℕ
verifications [] = 0
verifications (e ∷ es) = let n = verifications es in elim e [ verifies c now ↦ suc n | _ ↦ n ]

abbrev pub Tally : List Event → ℕ → ℕ → ℕ → ℕ → ℕ → Type 0
Tally es c i p r v =
    (connections es ≡ c)
    × (inspections es ≡ i)
    × (pipes_ended es ≡ p)
    × (results_received es ≡ r)
    × (verifications es ≡ v)

abbrev is_completed : JobStatus → Bool
is_completed completed = true
is_completed _ = false

-- What the steps so far amount to in each phase.
abbrev IsTallied : List Event → Run → Type 0
IsTallied es r = elim r.phase [
  | starting ↦ (is_completed r.job.status ≡ false) × Tally es 0 0 0 0 0
  | inspecting ↦ (is_completed r.job.status ≡ false) × Tally es 1 0 0 0 0
  | streaming ↦
      (is_completed r.job.status ≡ false) × (r.pipes ≤ 2) × Tally es 1 1 (2 - r.pipes) r.received 0
  | checking ↦ (is_completed r.job.status ≡ false) × Tally es 1 1 2 2 0
  | ended ↦ is_completed r.job.status ≡ true → (r.pipes ≡ 0) × Tally es 1 1 2 2 1
]
