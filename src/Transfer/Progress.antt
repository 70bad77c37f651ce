-- ===== src/Transfer/Progress.antt =====
-- The numbers that a transfer shows.
use pantau.Common.{ℕ, ◌≤◌, ◌≡◌, some, List, [], ◌∷◌, arith}
use pantau.Common.Int.{pos_part}
use pantau.Transfer.{
  TransferJob, Run, new_run, Event, History, nothing, after, step, percent, report, fail_job,
  receive, complete, cancel_job, connects, inspects, writes, ticks, pipe_ends, receives,
  sees_cancel, verifies, cancels,
}

percent_le : (total current : ℕ) → percent total current ≤ 100
unfolding percent
percent_le total current = ground arith

-- The percentage is one, and no byte is shown or remembered that the pipe has not carried.
abbrev pub IsInBounds : Run → Type 0
IsInBounds r =
    (r.job.percentage ≤ 100)
    × (r.job.transferred_bytes ≤ r.transferred)
    × (r.last_bytes ≤ r.transferred)

report-IsInBounds :
    (last elapsed : ℕ) (r : Run)
    → IsInBounds r
    → IsInBounds
        (record r { job = report r.transferred last elapsed r.job; last_bytes = r.transferred })
unfolding report
report-IsInBounds last elapsed r h =
    ground (arith, percent_le (pos_part r.job.total_bytes) r.transferred)

step-IsInBounds : (e : Event) (r s : Run) → step e r ≡ some s → IsInBounds r → IsInBounds s
unfolding step receive complete cancel_job fail_job
step-IsInBounds (connects err now) r s eq h = ground arith
step-IsInBounds (inspects a b c) r s eq h = ground arith
step-IsInBounds (writes n) r s eq h = ground arith
step-IsInBounds (ticks elapsed) r s eq h = ground (arith, report-IsInBounds r.last_bytes elapsed r)
step-IsInBounds (pipe_ends err) r s eq h = ground arith
step-IsInBounds (receives now) r s eq h = ground arith
step-IsInBounds (sees_cancel now) r s eq h = ground arith
step-IsInBounds (verifies c now) r s eq h = ground arith
step-IsInBounds (cancels now) r s eq h = ground arith

-- In every history of a job, its percentage is at most 100 and its transferred bytes are at most
-- those that went through the pipe.
pub History-IsInBounds :
    (j : TransferJob) (es : List Event) (r : Run)
    → j.percentage ≤ 100
    → j.transferred_bytes ≤ 0
    → History (new_run j) es r
    → IsInBounds r
History-IsInBounds j [] r p t nothing = ground arith
History-IsInBounds j (e ∷ es) s p t (after _ _ h eq) =
    step-IsInBounds e _ s eq (History-IsInBounds j es _ p t h)
