-- ===== src/Transfer/Examples.antt =====
-- A file of three bytes that is copied and verified, and a job that is cancelled.
use pantau.Common.{ℕ, ◌≡◌, refl, Bool, true, Option, none, some, List, [], ◌∷◌, map, arith, some_of}
use pantau.Common.Text.{codes}
use pantau.Transfer.{
  streaming, queued, fast, TransferJob, Run, completed, new_run, Event, History, Checks, connects,
  inspects, writes, ticks, pipe_ends, receives, verifies,
}
use pantau.Transfer.Ending.{CanStep, never_stuck}
use pantau.Transfer.Tally.{Tally}
use pantau.Transfer.Verified.{
  passes, completed_has_passed, completed_file_has_equal_hashes, shows_equal_hashes,
}
use pantau.Transfer.Progress.{IsInBounds, History-IsInBounds}
use pantau.Transfer.Cancel.{run_all, History-run_all, cancelled_early, cancelled_completes}
use pantau.Transfer.Manager.{new_job, new_manager, list_jobs}
use pantau.Transfer.Manager.Order.{
  id_of, countdown, Request, starts, cancels_job, happens, serve_all, list_jobs-serve_all,
}

abbrev job : TransferJob
unfolding new_job
job = new_job 1 1 (codes "/srv/a") 2 (codes "/srv/b") (codes "verified")

abbrev hashes : Checks
hashes = record { source_hash = codes "ab12\n"; dest_hash = codes "ab12\n"; dest_count = [] }

abbrev streamed : List Event
streamed = ticks 500 ∷ writes 3 ∷ inspects (codes "FILE\n") (codes "3\n") [] ∷ connects none 10 ∷ []

abbrev copied : List Event
copied = verifies hashes 20 ∷ receives 20 ∷ receives 20 ∷ pipe_ends none ∷ pipe_ends none ∷ streamed

abbrev or_run : Option Run → Run
or_run none = new_run job
or_run (some r) = r

abbrev copied_run : Run
unfolding run_all new_job
copied_run = or_run (run_all copied (new_run job))

abbrev streamed_run : Run
unfolding run_all new_job
streamed_run = or_run (run_all streamed (new_run job))

copied_so : History (new_run job) copied copied_run
unfolding run_all new_job copied_run pantau.Common.Numerals.atoi pantau.Common.Text.trim_space
    pantau.Common.Text.teq
copied_so = History-run_all copied (new_run job) copied_run refl

streamed_so : History (new_run job) streamed streamed_run
unfolding run_all new_job
streamed_so = History-run_all streamed (new_run job) streamed_run refl

copied_percentage : copied_run.job.percentage ≡ 100
unfolding copied_run pantau.Common.Numerals.atoi pantau.Common.Text.trim_space
    pantau.Common.Text.teq
copied_percentage = refl

History-IsInBounds_example : IsInBounds copied_run
unfolding job
History-IsInBounds_example =
    History-IsInBounds job copied copied_run (omega arith) (omega arith) copied_so

still_streaming : streamed_run.phase ≡ streaming
unfolding streamed_run
still_streaming = refl

never_stuck_example : CanStep streamed_run
never_stuck_example =
    never_stuck job streamed streamed_run streamed_so (λ h. ground (arith, h, still_streaming))

completed_file_has_equal_hashes_example : some_of shows_equal_hashes copied ≡ true
unfolding job copied_run pantau.Common.Numerals.atoi pantau.Common.Text.trim_space
    pantau.Common.Text.teq
completed_file_has_equal_hashes_example =
    completed_file_has_equal_hashes job copied copied_run refl copied_so refl refl refl

completed_has_passed_example : some_of (passes copied_run.job) copied ≡ true
unfolding job copied_run pantau.Common.Numerals.atoi pantau.Common.Text.trim_space
    pantau.Common.Text.teq
completed_has_passed_example = (completed_has_passed job copied copied_run refl copied_so refl).0

cancelled_completes_example :
    (s : Run) × History
      (new_run (record job { status = queued; mode = fast }))
      (cancelled_early hashes 5)
      s
    × (s.cancel_called ≡ true)
    × (s.job.status ≡ completed)
cancelled_completes_example = cancelled_completes job hashes 5

abbrev both_known : ℕ → Bool
both_known h = true

abbrev requests : List Request
requests =
    starts 1 (codes "/srv/a") 2 (codes "/srv/b") (codes "verified")
    ∷ starts 1 (codes "/srv/a") 1 (codes "/srv/a") (codes "fast")
    ∷ starts 1 (codes "/srv/a") 1 (codes "/srv/c") (codes "fast")
    ∷ happens 1 (connects none 10)
    ∷ cancels_job 2 11
    ∷ []

list_jobs-serve_all_example :
    map id_of (list_jobs (serve_all both_known requests new_manager))
    ≡ countdown (serve_all both_known requests new_manager).next_id
list_jobs-serve_all_example = list_jobs-serve_all both_known requests

two_listed : map id_of (list_jobs (serve_all both_known requests new_manager)) ≡ 2 ∷ 1 ∷ []
unfolding list_jobs serve_all pantau.Common.Map.lookup pantau.Common.Text.teq
    pantau.Common.Map.store
two_listed = refl
