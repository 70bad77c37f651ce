-- ===== src/Transfer/Ending.antt =====
-- Every transfer comes to an end, if its commands do.
use pantau.Common.{
  ℕ, suc, ◌+◌, ◌-◌, ◌≤◌, ◌≡◌, ◌≢◌, refl, Bool, true, false, Option, none, some, List, [], ◌∷◌,
  length, length-append, arith, if◌then◌else◌,
}
use pantau.Common.Text.{Text}
use pantau.Transfer.{
  TransferJob, Run, Phase, starting, inspecting, streaming, checking, ended, new_run, Event,
  History, nothing, after, step, receive, cancel_job, Checks, connects, inspects, writes, ticks,
  pipe_ends, receives, sees_cancel, verifies, cancels,
}

-- The events by which a run goes on: not a write, a tick or a cancellation, which need not come.
abbrev pub is_own : Event → Bool
is_own (writes n) = false
is_own (ticks n) = false
is_own (cancels n) = false
is_own (connects e n) = true
is_own (inspects a b c) = true
is_own (pipe_ends e) = true
is_own (receives n) = true
is_own (sees_cancel n) = true
is_own (verifies c n) = true

abbrev pub own : List Event → ℕ
own [] = 0
own (e ∷ es) = let rest = own es in if is_own e then suc rest else rest

-- How many of them are left at most.
abbrev rank : Run → ℕ
rank r = elim r.phase [
  | starting ↦ 7
  | inspecting ↦ 6
  | streaming ↦ 3 + r.pipes - r.received
  | checking ↦ 1
  | ended ↦ r.pipes
]

-- No error gets lost between the pipes and the loop that waits for both.
abbrev pub IsCounted : Run → Type 0
IsCounted r = elim r.phase [
  | starting ↦ (r.pipes ≡ 0) × (r.received ≡ 0) × (r.err_chan ≡ [])
  | inspecting ↦ (r.pipes ≡ 0) × (r.received ≡ 0) × (r.err_chan ≡ [])
  | streaming ↦ (r.pipes + r.received + length r.err_chan ≡ 2) × (r.received ≤ 1)
  | checking ↦ r.pipes ≡ 0
  | ended ↦ Unit
]

abbrev IsRanked : List Event → Run → Type 0
IsRanked es r = own es + rank r ≤ 7

pub step-IsCounted : (e : Event) (r s : Run) → step e r ≡ some s → IsCounted r → IsCounted s
unfolding step receive cancel_job
step-IsCounted (connects err now) r s eq h = ground arith
step-IsCounted (inspects a b c) r s eq h = ground arith
step-IsCounted (writes n) r s eq h = ground arith
step-IsCounted (ticks elapsed) r s eq h = ground arith
step-IsCounted (pipe_ends err) r s eq h = ground (arith, length-append r.err_chan (err ∷ []))
step-IsCounted (receives now) r s eq h = ground arith
step-IsCounted (sees_cancel now) r s eq h = ground arith
step-IsCounted (verifies c now) r s eq h = ground arith
step-IsCounted (cancels now) r s eq h = ground arith

step-rank :
    (e : Event) (r s : Run) → step e r ≡ some s → IsCounted r → own (e ∷ []) + rank s ≤ rank r
unfolding step receive cancel_job
step-rank (connects err now) r s eq h = ground arith
step-rank (inspects a b c) r s eq h = ground arith
step-rank (writes n) r s eq h = ground arith
step-rank (ticks elapsed) r s eq h = ground arith
step-rank (pipe_ends err) r s eq h = ground arith
step-rank (receives now) r s eq h = ground arith
step-rank (sees_cancel now) r s eq h = ground arith
step-rank (verifies c now) r s eq h = ground arith
step-rank (cancels now) r s eq h = ground arith

pub both_kept :
    (j : TransferJob) (es : List Event) (r : Run)
    → History (new_run j) es r
    → IsCounted r × IsRanked es r
both_kept j [] r nothing = ground arith
both_kept j (e ∷ es) s (after _ _ h eq) =
    let kept = both_kept j es _ h in
    let ranked = step-rank e _ s eq kept.0 in
    (step-IsCounted e _ s eq kept.0, ground (arith, ranked, kept.1))

-- In every history of a transfer its goroutines take at most seven steps of their own.
pub own_steps_le :
    (j : TransferJob) (es : List Event) (r : Run) → History (new_run j) es r → own es ≤ 7
own_steps_le j es r h = omega (arith, (both_kept j es r h).1)

-- What a run can do next by itself.
abbrev pub CanStep : Run → Type 0
CanStep r = (e : Event) × (is_own e ≡ true) × (step e r ≢ none)

-- While it streams, a pipe can end or an error can be received.
next_of_pipes :
    (errs : List (Option Text)) (r : Run)
    → r.err_chan ≡ errs
    → r.phase ≡ streaming
    → IsCounted r
    → CanStep r
unfolding step
next_of_pipes [] r el e c = (pipe_ends none, refl, λ h. ground (arith, h, e, el, c))
next_of_pipes (d ∷ ds) r el e c = (receives 0, refl, λ h. ground (arith, h, e, el))

no_checks : Checks
no_checks = record { source_hash = []; dest_hash = []; dest_count = [] }

next_step : (p : Phase) (r : Run) → r.phase ≡ p → IsCounted r → p ≢ ended → CanStep r
unfolding step
next_step starting r e c n = (connects none 0, refl, λ h. ground (arith, h, e))
next_step inspecting r e c n = (inspects [] [] [], refl, λ h. ground (arith, h, e))
next_step streaming r e c n = next_of_pipes r.err_chan r refl e c
next_step checking r e c n = (verifies no_checks 0, refl, λ h. ground (arith, h, e))
next_step ended r e c n = absurd (n refl)

-- In every history, a transfer that has not ended can go on, so that it never waits for an error
-- that no pipe will report.
pub never_stuck :
    (j : TransferJob) (es : List Event) (r : Run)
    → History (new_run j) es r
    → r.phase ≢ ended
    → CanStep r
never_stuck j es r h n = next_step r.phase r refl (both_kept j es r h).0 n
