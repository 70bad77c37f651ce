-- ===== src/Transfer/Manager.antt =====
-- The manager of internal/transfer/transfer.go: its map of jobs and their order.
pub mod Order
use pantau.Common.{
  ℕ, suc, ◌&&◌, Bool, false, not, Option, none, some, List, [], ◌∷◌, ◌==◌, if◌then◌else◌,
}
use pantau.Common.Text.{Text, codes, teq}
use pantau.Common.Map.{Map, number_key, lookup, store}
use pantau.Common.Int.{pos}
use pantau.Transfer.{
  Mode, fast, verified, queued, TransferJob, Run, new_run, cancel_job, Event, step,
}

pub record Manager : Type 0 where
  pub jobs : Map ℕ Run
  pub job_order : List ℕ
  pub next_id : ℕ

-- NewManager
abbrev pub new_manager : Manager
new_manager = record { jobs = []; job_order = []; next_id = 0 }

abbrev pub mode_of : Text → Mode
mode_of m = if teq m (codes "verified") then verified else fast

unfoldable pub new_job : ℕ → ℕ → Text → ℕ → Text → Text → TransferJob
new_job id src_host src_path dst_host dst_path mode = record {
  id = id;
  source_host = src_host;
  source_path = src_path;
  dest_host = dst_host;
  dest_path = dst_path;
  mode = mode_of mode;
  status = queued;
  is_directory = false;
  total_bytes = pos 0;
  transferred_bytes = 0;
  speed = 0;
  percentage = 0;
  eta = 0;
  error = [];
  completed_at = none;
}

pub data StartResult : Type 0 where
  identical_paths source_missing dest_missing : StartResult
  started : Run → Manager → StartResult

-- StartTransfer; `known` are the hosts of the store
unfoldable pub start_transfer : (ℕ → Bool) → ℕ → Text → ℕ → Text → Text → Manager → StartResult
unfolding new_job
start_transfer known src_host src_path dst_host dst_path mode m =
    let id = suc m.next_id in
    let r = new_run (new_job id src_host src_path dst_host dst_path mode) in
    if src_host == dst_host && teq src_path dst_path
    then identical_paths
    else if not (known src_host)
    then source_missing
    else if not (known dst_host)
    then dest_missing
    else started r (record { jobs = store id r m.jobs; job_order = id ∷ m.job_order; next_id = id })

-- CancelTransfer: `none` if there is no such job
unfoldable pub cancel_transfer : ℕ → ℕ → Manager → Option Manager
unfolding cancel_job
cancel_transfer id now m = elim (lookup id m.jobs) [
  | none ↦ none
  | some r ↦ some (record m { jobs = store id (cancel_job now r) m.jobs })
]

-- An event of the job with this id; nothing happens where it cannot.
unfoldable pub step_job : ℕ → Event → Manager → Manager
unfolding step
step_job id e m = elim (lookup id m.jobs) [
  | none ↦ m
  | some r ↦ elim (step e r) [ none ↦ m | some s ↦ record m { jobs = store id s m.jobs } ]
]

-- the loop of ListJobs
unfoldable pub list_ids : Map ℕ Run → List ℕ → List TransferJob
list_ids jobs [] = []
list_ids jobs (id ∷ ids) =
    let rest = list_ids jobs ids in elim (lookup id jobs) [ none ↦ rest | some r ↦ r.job ∷ rest ]

-- ListJobs
unfoldable pub list_jobs : Manager → List TransferJob
unfolding list_ids
list_jobs m = list_ids m.jobs m.job_order

-- GetJob
unfoldable pub get_job : ℕ → Manager → Option TransferJob
get_job id m = elim (lookup id m.jobs) [ none ↦ none | some r ↦ some r.job ]
