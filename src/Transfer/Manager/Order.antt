-- ===== src/Transfer/Manager/Order.antt =====
-- The jobs that the manager lists.
use pantau.Common.{
  ℕ, zero, suc, ◌≤◌, ◌≡◌, refl, ap, ◌∙◌, Bool, false, none, some, List, [], ◌∷◌, map, arith, inl,
  inr, ◌⊎◌, ◌==◌, Option-cases, Bool-cases,
}
use pantau.Common.Text.{Text}
use pantau.Common.Map.{Map, number_key, lookup, store, lookup-store}
use pantau.Transfer.{
  TransferJob, Run, Event, new_run, step, receive, fail_job, complete, report, cancel_job, connects,
  inspects, writes, ticks, pipe_ends, receives, sees_cancel, verifies, cancels,
}
use pantau.Transfer.Manager.{
  Manager, new_manager, new_job, identical_paths, source_missing, dest_missing, started,
  start_transfer, cancel_transfer, step_job, list_jobs, list_ids,
}

-- A job keeps its id whatever happens to it.
step-id : (e : Event) (r s : Run) → step e r ≡ some s → s.job.id ≡ r.job.id
unfolding step receive cancel_job fail_job complete report
step-id (connects err now) r s eq = ground arith
step-id (inspects x y z) r s eq = ground arith
step-id (writes n) r s eq = ground arith
step-id (ticks elapsed) r s eq = ground arith
step-id (pipe_ends err) r s eq = ground arith
step-id (receives now) r s eq = ground arith
step-id (sees_cancel now) r s eq = ground arith
step-id (verifies k now) r s eq = ground arith
step-id (cancels now) r s eq = ground arith

abbrev pub id_of : TransferJob → ℕ
id_of j = j.id

-- n, n - 1, …, 1
abbrev pub countdown : ℕ → List ℕ
countdown zero = []
countdown (suc n) = suc n ∷ countdown n

-- The job that is stored under an id has this id.
abbrev HasId : Map ℕ Run → ℕ → Type 0
HasId jobs k = (r : Run) × (lookup k jobs ≡ some r) × (r.job.id ≡ k)

-- The manager holds the jobs 1 to its last id, the newest first.
abbrev IsOrdered : Manager → Type 0
IsOrdered m =
    (m.job_order ≡ countdown m.next_id) × ((k : ℕ) → 1 ≤ k → k ≤ m.next_id → HasId m.jobs k)

store-HasId :
    (jobs : Map ℕ Run) (id k : ℕ) (r : Run)
    → r.job.id ≡ id
    → ((id == k) ≡ false → HasId jobs k)
    → HasId (store id r jobs) k
store-HasId jobs id k r e h = elim (Bool-cases (id == k)) [
  | inl t ↦ (r, lookup-store id k r jobs ∙ ground (arith, t), ground (arith, t))
  | inr f ↦ let q = h f in (q.0, lookup-store id k r jobs ∙ ground (arith, f, q.1), q.2)
]

list_ids-countdown :
    (jobs : Map ℕ Run) (n : ℕ)
    → ((k : ℕ) → 1 ≤ k → k ≤ n → HasId jobs k)
    → map id_of (list_ids jobs (countdown n)) ≡ countdown n
unfolding list_ids
list_ids-countdown jobs zero h = refl
list_ids-countdown jobs (suc n) h =
    let top = h (suc n) (omega arith) (omega arith) in
    let rest = list_ids-countdown jobs n (λ k p q. h k p (omega arith)) in ground (arith, top, rest)

-- What is asked of the manager, or happens to one of its jobs.
pub data Request : Type 0 where
  starts : ℕ → Text → ℕ → Text → Text → Request
  cancels_job : ℕ → ℕ → Request
  happens : ℕ → Event → Request

-- The manager after a request, which may be refused.
unfoldable pub serve : (ℕ → Bool) → Request → Manager → Manager
unfolding start_transfer cancel_transfer step_job
serve known (starts a p b q mode) m = elim (start_transfer known a p b q mode m) [
  | identical_paths ↦ m
  | source_missing ↦ m
  | dest_missing ↦ m
  | started r n ↦ n
]
serve known (cancels_job id now) m = elim (cancel_transfer id now m) [ none ↦ m | some n ↦ n ]
serve known (happens id e) m = step_job id e m

unfoldable pub serve_all : (ℕ → Bool) → List Request → Manager → Manager
unfolding serve
serve_all known [] m = m
serve_all known (q ∷ qs) m = serve_all known qs (serve known q m)

-- A job that takes the place of another with its id.
replaced-IsOrdered :
    (m : Manager) (id : ℕ) (r s : Run)
    → lookup id m.jobs ≡ some r
    → s.job.id ≡ r.job.id
    → IsOrdered m
    → IsOrdered (record m { jobs = store id s m.jobs })
replaced-IsOrdered m id r s found e h = (
  h.0,
  λ k p q.
      let old = h.1 k p q in
      elim (Bool-cases (id == k)) [
        | inl t ↦ (
          s,
          lookup-store id k s m.jobs ∙ ground (arith, t),
          ground (arith, t, found, e, old.1, old.2),
        )
        | inr f ↦ (old.0, lookup-store id k s m.jobs ∙ ground (arith, f, old.1), old.2)
      ],
)

cancel_job-id : (now : ℕ) (r : Run) → (cancel_job now r).job.id ≡ r.job.id
unfolding cancel_job
cancel_job-id now r = ground arith

added-IsOrdered :
    (m : Manager) (r : Run)
    → r.job.id ≡ suc m.next_id
    → IsOrdered m
    → IsOrdered (record {
      jobs = store (suc m.next_id) r m.jobs;
      job_order = suc m.next_id ∷ m.job_order;
      next_id = suc m.next_id;
    })
added-IsOrdered m r e h = (
  ap (λ l. suc m.next_id ∷ l) h.0,
  λ k p q. store-HasId m.jobs (suc m.next_id) k r e (λ f. h.1 k p (ground (arith, f, q))),
)

-- A transfer starts, or its request is refused and changes nothing.
abbrev begun : ℕ → Text → ℕ → Text → Text → Manager → Manager
begun a p b q mode m = record {
  jobs = store (suc m.next_id) (new_run (new_job (suc m.next_id) a p b q mode)) m.jobs;
  job_order = suc m.next_id ∷ m.job_order;
  next_id = suc m.next_id;
}

serve-starts :
    (known : ℕ → Bool) (a : ℕ) (p : Text) (b : ℕ) (q mode : Text) (m : Manager)
    → (serve known (starts a p b q mode) m ≡ m)
      ⊎ (serve known (starts a p b q mode) m ≡ begun a p b q mode m)
unfolding serve start_transfer
serve-starts known a p b q mode m = ground arith

new_job-id : (id a : ℕ) (p : Text) (b : ℕ) (q mode : Text) → (new_job id a p b q mode).id ≡ id
unfolding new_job
new_job-id id a p b q mode = refl

serve-IsOrdered :
    (known : ℕ → Bool) (q : Request) (m : Manager) → IsOrdered m → IsOrdered (serve known q m)
unfolding serve cancel_transfer step_job
serve-IsOrdered known (starts a p b q mode) m h = elim (serve-starts known a p b q mode m) [
  | inl e ↦ rw e h
  | inr e ↦ rw e (
      added-IsOrdered m (new_run (new_job (suc m.next_id) a p b q mode))
        (new_job-id (suc m.next_id) a p b q mode) h)
]
serve-IsOrdered known (cancels_job id now) m h = elim (Option-cases (lookup id m.jobs)) [
  | inl n ↦ rw (serve, cancel_transfer, n) h
  | inr (r, found) ↦
      rw (serve, cancel_transfer, found)
        (replaced-IsOrdered m id r (cancel_job now r) found (cancel_job-id now r) h)
]
serve-IsOrdered known (happens id e) m h = elim (Option-cases (lookup id m.jobs)) [
  | inl n ↦ rw (serve, step_job, n) h
  | inr (r, found) ↦ elim (Option-cases (step e r)) [
    | inl n ↦ rw (serve, step_job, found, n) h
    | inr (s, eq) ↦
        rw (serve, step_job, found, eq) (replaced-IsOrdered m id r s found (step-id e r s eq) h)
  ]
]

serve_all-IsOrdered :
    (known : ℕ → Bool) (qs : List Request) (m : Manager)
    → IsOrdered m
    → IsOrdered (serve_all known qs m)
unfolding serve_all
serve_all-IsOrdered known [] m h = h
serve_all-IsOrdered known (q ∷ qs) m h =
    serve_all-IsOrdered known qs (serve known q m) (serve-IsOrdered known q m h)

-- After any requests and events, ListJobs shows every job that was ever started, once, with the ids
-- from the last one down to 1.
pub list_jobs-serve_all :
    (known : ℕ → Bool) (qs : List Request)
    → map id_of (list_jobs (serve_all known qs new_manager))
      ≡ countdown (serve_all known qs new_manager).next_id
unfolding list_jobs
list_jobs-serve_all known qs =
    let start : IsOrdered new_manager = (refl, λ k p q. absurd (omega arith)) in
    let h = serve_all-IsOrdered known qs new_manager start in
    let m = serve_all known qs new_manager in rw h.0 (list_ids-countdown m.jobs m.next_id h.1)
