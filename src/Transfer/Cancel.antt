-- ===== src/Transfer/Cancel.antt =====
-- What a cancellation does to a transfer.
use pantau.Common.{
  ℕ, ◌≡◌, refl, sym, true, Option, none, some, List, [], ◌∷◌, arith, inl, inr, Option-cases,
}
use pantau.Transfer.{
  TransferJob, Run, fast, completed, queued, new_run, Event, History, nothing, after, step, receive,
  complete, cancel_job, Checks, verify, connects, inspects, pipe_ends, receives, verifies, cancels,
}

-- A job that is cancelled before its source is inspected, as it happens: both pipes still run to
-- their ends, and the select of the loop takes their errors and not the context.
abbrev pub cancelled_early : Checks → ℕ → List Event
cancelled_early c now =
    verifies c now
    ∷ receives now
    ∷ receives now
    ∷ pipe_ends none
    ∷ pipe_ends none
    ∷ inspects [] [] []
    ∷ connects none now
    ∷ cancels now
    ∷ []

-- The run that a history, newest event first, leads to.
unfoldable pub run_all : List Event → Run → Option Run
unfolding step
run_all [] r = some r
run_all (e ∷ es) r = elim (run_all es r) [ none ↦ none | some s ↦ step e s ]

pub History-run_all : (es : List Event) (r s : Run) → run_all es r ≡ some s → History r es s
unfolding run_all
History-run_all [] r s eq = let e : r ≡ s = ground (arith, eq) in rw (sym e) nothing
History-run_all (e ∷ es) r s eq = elim (Option-cases (run_all es r)) [
  | inl n ↦ absurd (ground (arith, n, eq))
  | inr (t, p) ↦ after e s (History-run_all es r t p) (ground (arith, p, eq))
]

-- A queued job of the fast mode that is cancelled at once has a history in which it is completed all
-- the same: nothing looks at the cancellation before the loop over the pipes, which may prefer their
-- errors.
pub cancelled_completes :
    (j : TransferJob) (c : Checks) (now : ℕ)
    → (s : Run) × History
        (new_run (record j { status = queued; mode = fast }))
        (cancelled_early c now)
        s
      × (s.cancel_called ≡ true)
      × (s.job.status ≡ completed)
unfolding run_all step receive cancel_job verify complete
cancelled_completes j c now = (_, History-run_all (cancelled_early c now) _ _ refl, refl, refl)
