-- ===== src/Transfer.antt =====
-- internal/transfer/transfer.go: the jobs of the transfer manager, and the goroutines of
-- runTransfer as events that come in any order. Runners, whose code is elsewhere, appear as what
-- their commands print. The percentage is its whole part.
pub mod Progress
pub mod Verified
pub mod Cancel
pub mod Ending
pub mod Tally
pub mod Manager
mod Examples
use pantau.Common.{
  ℕ, suc, ◌+◌, ◌-◌, ◌*◌, ◌/◌, Bool, true, false, not, ◌&&◌, ◌||◌, Option, none, some, List, [], ◌∷◌,
  ◌++◌, ltb, leb, ◌==◌, if◌then◌else◌, ◌≡◌,
}
use pantau.Common.Text.{Text, codes, teq, trim_space}
use pantau.Common.Int.{ℤ, pos, pos_part}
use pantau.Common.Numerals.{atoi}

pub data Mode : Type 0 where
  fast verified : Mode

pub data JobStatus : Type 0 where
  queued transferring completed failed cancelled : JobStatus

pub record TransferJob : Type 0 where
  pub id : ℕ
  pub source_host : ℕ
  pub source_path : Text
  pub dest_host : ℕ
  pub dest_path : Text
  pub mode : Mode
  pub status : JobStatus
  pub is_directory : Bool
  pub total_bytes : ℤ
  pub transferred_bytes : ℕ
  pub speed : ℕ
  pub percentage : ℕ
  pub eta : ℕ
  pub error : Text
  pub completed_at : Option ℕ

-- Where the goroutine of runTransfer stands. In `streaming` it waits for the two pipes: the number
-- that have reported, of which `waiting` errors are still in the channel.
pub data Phase : Type 0 where
  starting inspecting streaming checking ended : Phase

-- a job with the variables of its goroutines; `cancel_called` is a context that is
-- done, and `reporter` says that the metrics loop was started
pub record Run : Type 0 where
  pub job : TransferJob
  pub phase : Phase
  pub cancel_called : Bool
  pub transferred : ℕ
  pub last_bytes : ℕ
  pub pipes : ℕ
  pub err_chan : List (Option Text)
  pub received : ℕ
  pub exec_err : Option Text
  pub reporter : Bool

-- a run before its goroutine does anything
abbrev pub new_run : TransferJob → Run
new_run j = record {
  job = j;
  phase = starting;
  cancel_called = false;
  transferred = 0;
  last_bytes = 0;
  pipes = 0;
  err_chan = [];
  received = 0;
  exec_err = none;
  reporter = false;
}

-- failJob
unfoldable pub fail_job : Text → ℕ → TransferJob → TransferJob
fail_job e now j = record j { status = failed; error = e; completed_at = some now }

abbrev pub fail : Text → ℕ → Run → Run
fail e now r = record r { job = fail_job e now r.job; phase = ended }

-- the size that a command prints, 0 if it prints none
unfoldable pub parse_size : Text → ℤ
parse_size out = elim (atoi (trim_space out)) [ none ↦ pos 0 | some n ↦ n ]

-- du first, and stat where du gives nothing
unfoldable pub total_of : Text → Text → ℤ
unfolding parse_size
total_of size_out stat_out =
    let du = parse_size size_out in if leb (pos_part du) 0 then parse_size stat_out else du

-- the percentage, capped
unfoldable pub percent : ℕ → ℕ → ℕ
percent total current = let p = 100 * current / total in if ltb 100 p then 100 else p

unfoldable pub eta_of : ℕ → ℕ → ℕ → ℕ
eta_of total current speed =
    if ltb current total && ltb 0 speed then (total - current) / speed else 0

-- what a tick writes, with the bytes counted before and the milliseconds since then
unfoldable pub report : ℕ → ℕ → ℕ → TransferJob → TransferJob
unfolding percent eta_of
report current last_bytes elapsed j =
    let speed = (current - last_bytes) * 1000 / (if elapsed == 0 then 500 else elapsed) in
    let total = pos_part j.total_bytes in
    let k = record j { transferred_bytes = current; speed = speed } in
    if ltb 0 total
    then record k { percentage = percent total current; eta = eta_of total current speed }
    else k

-- what the commands of the verification print: two hashes, and a number of files
pub record Checks : Type 0 where
  pub source_hash : Text
  pub dest_hash : Text
  pub dest_count : Text

-- the reason why a verification fails, if it does
unfoldable pub verify : Checks → TransferJob → Option Text
verify c j = elim j.mode [
  | fast ↦ none
  | verified ↦
      if not j.is_directory
      then (let src = trim_space c.source_hash in
          let dst = trim_space c.dest_hash in
          if teq src [] || not (teq src dst)
          then some (codes "SHA256 checksum mismatch: source=" ++ src ++ codes ", dest=" ++ dst)
          else none)
      else if teq (trim_space c.dest_count) (codes "0") && ltb 0 (pos_part j.total_bytes)
      then some (codes "directory transfer verification failed: destination has 0 files")
      else none
]

-- the last writes of runTransfer
unfoldable pub complete : ℕ → ℕ → TransferJob → TransferJob
complete transferred now j = record j {
  status = completed;
  percentage = 100;
  transferred_bytes = transferred;
  speed = 0;
  eta = 0;
  completed_at = some now;
}

-- What can happen to a run: its goroutine goes on, a pipe writes or ends, the reporter ticks, and
-- CancelTransfer is called. Times are those of the writes.
pub data Event : Type 0 where
  connects : Option (Bool × Text) → ℕ → Event
  inspects : Text → Text → Text → Event
  writes : ℕ → Event
  ticks : ℕ → Event
  pipe_ends : Option Text → Event
  receives : ℕ → Event
  sees_cancel : ℕ → Event
  verifies : Checks → ℕ → Event
  cancels : ℕ → Event

-- err != nil
abbrev pub is_error : Option Text → Bool
is_error none = false
is_error (some e) = true

-- the first error is kept
abbrev pub keep_first : Option Text → Option Text → Option Text
keep_first none e = e
keep_first (some d) e = some d

-- An error of the channel is taken; after the second the loop is over.
unfoldable pub receive : ℕ → Option Text → List (Option Text) → Run → Run
unfolding fail_job
receive now e rest r =
    let s = record r {
      err_chan = rest;
      received = suc r.received;
      exec_err = keep_first r.exec_err e;
    } in
    if ltb s.received 2 then s else elim s.exec_err [
      | none ↦ record s { phase = checking }
      | some e ↦ fail (codes "stream transfer failed: " ++ e) now s
    ]

-- CancelTransfer on a job that exists
unfoldable pub cancel_job : ℕ → Run → Run
cancel_job now r =
    let hit = record r {
      job = record r.job { status = cancelled; completed_at = some now };
      cancel_called = true;
    } in
    elim r.job.status [
      | queued ↦ hit
      | transferring ↦ hit
      | completed ↦ r
      | failed ↦ r
      | cancelled ↦ r
    ]

-- the host that could not be reached, source or destination, with the error
abbrev connect_failed : Bool → Text → Text
connect_failed to_source e =
    (if to_source then codes "connect source host failed: " else codes "connect dest host failed: ")
    ++ e

-- One event: `none` if it cannot happen in this phase.
unfoldable pub step : Event → Run → Option Run
unfolding fail_job total_of report receive verify complete cancel_job
step (cancels now) r = some (cancel_job now r)
step (connects err now) r = elim r.phase [
  | starting ↦ elim err [
    | some (to_source, e) ↦ some (fail (connect_failed to_source e) now r)
    | none ↦ some (record r { phase = inspecting })
  ]
  | inspecting ↦ none
  | streaming ↦ none
  | checking ↦ none
  | ended ↦ none
]
step (inspects type_out size_out stat_out) r = elim r.phase [
  | inspecting ↦ some (record r {
    job = record r.job {
      status = transferring;
      is_directory = teq (trim_space type_out) (codes "DIR");
      total_bytes = total_of size_out stat_out;
    };
    phase = streaming;
    pipes = 2;
    reporter = true;
  })
  | starting ↦ none
  | streaming ↦ none
  | checking ↦ none
  | ended ↦ none
]
step (writes n) r =
    if ltb 0 r.pipes then some (record r { transferred = r.transferred + n }) else none
step (ticks elapsed) r =
    if r.reporter
    then some (record r {
      job = report r.transferred r.last_bytes elapsed r.job;
      last_bytes = r.transferred;
    })
    else none
step (pipe_ends err) r =
    if ltb 0 r.pipes
    then some (record r { pipes = r.pipes - 1; err_chan = r.err_chan ++ err ∷ [] })
    else none
step (receives now) r = elim r.phase [
  | streaming ↦ elim r.err_chan [ [] ↦ none | e ∷ rest ↦ some (receive now e rest r) ]
  | starting ↦ none
  | inspecting ↦ none
  | checking ↦ none
  | ended ↦ none
]
step (sees_cancel now) r = elim r.phase [
  | streaming ↦
      if r.cancel_called
      then some (record r {
        job = record r.job { status = cancelled; completed_at = some now };
        phase = ended;
      })
      else none
  | starting ↦ none
  | inspecting ↦ none
  | checking ↦ none
  | ended ↦ none
]
step (verifies c now) r = elim r.phase [
  | checking ↦ elim (verify c r.job) [
    | some e ↦ some (fail e now r)
    | none ↦ some (record r { job = complete r.transferred now r.job; phase = ended })
  ]
  | starting ↦ none
  | inspecting ↦ none
  | streaming ↦ none
  | ended ↦ none
]

-- What happens to a run up to some moment, with the newest event first.
pub data History (start : Run) : List Event → Run → Type 0 where
  nothing : History start [] start
  after :
      {es : List Event} {r : Run} (e : Event) (s : Run)
      → History start es r
      → step e r ≡ some s
      → History start (e ∷ es) s
