-- ===== src/Transfer/Verified.antt =====
-- What a transfer that is completed has checked.
use pantau.Common.{
  ℕ, ◌≡◌, refl, ap, Bool, true, false, not, ◌&&◌, ◌||◌, Option, none, some, List, [], ◌∷◌, arith,
  some_of, some_of-append,
}
use pantau.Common.Text.{Text, teq, trim_space}
use pantau.Transfer.Ending.{IsCounted, step-IsCounted}
use pantau.Transfer.{
  is_error, TransferJob, Run, verified, completed, queued, starting, inspecting, streaming,
  checking, ended, new_run, Event, History, nothing, after, step, receive, fail_job, complete,
  report, cancel_job, Checks, verify, connects, inspects, writes, ticks, pipe_ends, receives,
  sees_cancel, verifies, cancels,
}

abbrev is_none : Option Text → Bool
is_none none = true
is_none (some e) = false

-- A verification that finds nothing wrong with this job.
abbrev pub passes : TransferJob → Event → Bool
passes j e = elim e [ verifies c now ↦ is_none (verify c j) | _ ↦ false ]

-- Some pipe ended with an error.
abbrev pub pipe_failed : List Event → Bool
pipe_failed [] = false
pipe_failed (e ∷ es) =
    let rest = pipe_failed es in elim e [ pipe_ends err ↦ is_error err || rest | _ ↦ rest ]

-- What the errors in the channel and the variable of the loop tell of the pipes.
abbrev IsTold : List Event → Run → Type 0
IsTold es r = elim r.phase [
  | starting ↦ (pipe_failed es ≡ false) × (r.exec_err ≡ none)
  | inspecting ↦ (pipe_failed es ≡ false) × (r.exec_err ≡ none)
  | streaming ↦ pipe_failed es ≡ (some_of is_error r.err_chan || is_error r.exec_err)
  | checking ↦ pipe_failed es ≡ false
  | ended ↦ r.job.status ≡ completed → (r.pipes ≡ 0) × (pipe_failed es ≡ false)
]

received-IsTold :
    (errs : List (Option Text)) (es : List Event) (now : ℕ) (r s : Run)
    → r.err_chan ≡ errs
    → step (receives now) r ≡ some s
    → IsCounted r
    → IsTold es r
    → IsTold (receives now ∷ es) s
unfolding step receive fail_job
received-IsTold [] es now r s el eq c h = ground (arith, el, eq, c, h)
received-IsTold (d ∷ []) es now r s el eq c h = ground (arith, el, eq, c, h)
received-IsTold (d ∷ e ∷ l) es now r s el eq c h = ground (arith, el, eq, c, h)

step-IsTold :
    (es : List Event) (e : Event) (r s : Run)
    → step e r ≡ some s
    → IsCounted r
    → IsTold es r
    → IsTold (e ∷ es) s
unfolding step receive cancel_job fail_job complete report
step-IsTold es (connects err now) r s eq c h = ground arith
step-IsTold es (inspects x y z) r s eq c h = ground arith
step-IsTold es (writes n) r s eq c h = ground arith
step-IsTold es (ticks elapsed) r s eq c h = ground arith
step-IsTold es (pipe_ends err) r s eq c h =
    ground (arith, some_of-append is_error r.err_chan (err ∷ []))
step-IsTold es (receives now) r s eq c h = received-IsTold r.err_chan es now r s refl eq c h
step-IsTold es (sees_cancel now) r s eq c h = ground arith
step-IsTold es (verifies k now) r s eq c h = ground arith
step-IsTold es (cancels now) r s eq c h = ground arith

-- The fields that a verification reads stay as they are once the source is inspected.
verify-report :
    (c : Checks) (current last elapsed : ℕ) (j : TransferJob)
    → verify c (report current last elapsed j) ≡ verify c j
unfolding verify report
verify-report c current last elapsed j = ground arith

passes_alike :
    (j k : TransferJob) (e : Event)
    → ((c : Checks) → verify c j ≡ verify c k)
    → passes j e ≡ passes k e
passes_alike j k e same = elim e as (λ x. passes j x ≡ passes k x) [
  | verifies c now ↦ ap is_none (same c)
  | _ ↦ refl
]

passed_alike :
    (j k : TransferJob) (es : List Event)
    → ((c : Checks) → verify c j ≡ verify c k)
    → some_of (passes j) es ≡ some_of (passes k) es
passed_alike j k [] same = refl
passed_alike j k (e ∷ es) same = ground (arith, passes_alike j k e same, passed_alike j k es same)

-- A completed transfer has ended, and passed a verification.
abbrev IsVouched : List Event → Run → Type 0
IsVouched es r = r.job.status ≡ completed → (r.phase ≡ ended) × (some_of (passes r.job) es ≡ true)

report-status :
    (current last elapsed : ℕ) (j : TransferJob) → (report current last elapsed j).status ≡ j.status
unfolding report
report-status current last elapsed j = ground arith

ticked-IsVouched :
    (es : List Event) (elapsed : ℕ) (r s : Run)
    → step (ticks elapsed) r ≡ some s
    → IsVouched es r
    → IsVouched (ticks elapsed ∷ es) s
unfolding step
ticked-IsVouched es elapsed r s eq h =
    let same =
      passed_alike (report r.transferred r.last_bytes elapsed r.job) r.job es
        (λ c. verify-report c r.transferred r.last_bytes elapsed r.job) in
    ground (arith, report-status r.transferred r.last_bytes elapsed r.job, same)

verify-complete :
    (c : Checks) (n now : ℕ) (j : TransferJob) → verify c (complete n now j) ≡ verify c j
unfolding verify complete
verify-complete c n now j = refl

verified-IsVouched :
    (es : List Event) (k : Checks) (now : ℕ) (r s : Run)
    → step (verifies k now) r ≡ some s
    → IsVouched es r
    → IsVouched (verifies k now ∷ es) s
unfolding step fail_job
verified-IsVouched es k now r s eq h = ground (arith, verify-complete k r.transferred now r.job)

step-IsVouched :
    (es : List Event) (e : Event) (r s : Run)
    → step e r ≡ some s
    → IsVouched es r
    → IsVouched (e ∷ es) s
unfolding step receive cancel_job fail_job complete report
step-IsVouched es (connects err now) r s eq h = ground arith
step-IsVouched es (inspects x y z) r s eq h = ground arith
step-IsVouched es (writes n) r s eq h = ground arith
step-IsVouched es (ticks elapsed) r s eq h = ticked-IsVouched es elapsed r s eq h
step-IsVouched es (pipe_ends err) r s eq h = ground arith
step-IsVouched es (receives now) r s eq h = ground arith
step-IsVouched es (sees_cancel now) r s eq h = ground arith
step-IsVouched es (verifies k now) r s eq h = verified-IsVouched es k now r s eq h
step-IsVouched es (cancels now) r s eq h = ground arith

all_kept :
    (j : TransferJob) (es : List Event) (r : Run)
    → j.status ≡ queued
    → History (new_run j) es r
    → (IsCounted r) × (IsTold es r) × (IsVouched es r)
all_kept j [] r q nothing = ground arith
all_kept j (e ∷ es) s q (after _ _ h eq) =
    let kept = all_kept j es _ q h in
    (
      step-IsCounted e _ s eq kept.0,
      step-IsTold es e _ s eq kept.0 kept.1,
      step-IsVouched es e _ s eq kept.2,
    )

-- In every history of a queued job, a job that is completed has passed a verification of its mode,
-- and no pipe has ended with an error.
pub completed_has_passed :
    (j : TransferJob) (es : List Event) (r : Run)
    → j.status ≡ queued
    → History (new_run j) es r
    → r.job.status ≡ completed
    → (some_of (passes r.job) es ≡ true) × (pipe_failed es ≡ false)
completed_has_passed j es r q h done = let kept = all_kept j es r q h in ground (arith, kept, done)

-- A verification that printed one hash for both files, and not none.
abbrev pub shows_equal_hashes : Event → Bool
shows_equal_hashes e = elim e [
  | verifies c now ↦
      not (teq (trim_space c.source_hash) [])
      && teq (trim_space c.source_hash) (trim_space c.dest_hash)
  | _ ↦ false
]

passes-hashes :
    (j : TransferJob) (e : Event)
    → j.mode ≡ verified
    → j.is_directory ≡ false
    → passes j e ≡ true
    → shows_equal_hashes e ≡ true
unfolding verify
passes-hashes j e m f p = ground arith

some_of_mono {ℓ} :
    {A : Type ℓ} (p q : A → Bool) (xs : List A)
    → ((x : A) → p x ≡ true → q x ≡ true)
    → some_of p xs ≡ true
    → some_of q xs ≡ true
some_of_mono p q [] le h = h
some_of_mono p q (x ∷ xs) le h = ground (arith, le x, some_of_mono p q xs le)

-- In every history of a queued job, a single file that is completed in the verified mode had one
-- SHA-256 hash, not empty, printed for the source and for the destination.
pub completed_file_has_equal_hashes :
    (j : TransferJob) (es : List Event) (r : Run)
    → j.status ≡ queued
    → History (new_run j) es r
    → r.job.status ≡ completed
    → r.job.mode ≡ verified
    → r.job.is_directory ≡ false
    → some_of shows_equal_hashes es ≡ true
completed_file_has_equal_hashes j es r q h done m f =
    some_of_mono (passes r.job) shows_equal_hashes es (λ e p. passes-hashes r.job e m f p)
      (completed_has_passed j es r q h done).0
