-- ===== src/Triage/Exclusive.antt =====
-- One call at a time for each host.
use pantau.Common.{ℕ, ◌+◌, ◌≤◌, ◌≡◌, Bool, Option, none, some, ◌==◌, if◌then◌else◌}
use pantau.Common.Map.{number_key, lookup}
use pantau.Triage.{Service, probes, Step, starts, ends, abandons, dies, Steps, done, next}

abbrev held : Option Bool → ℕ
held none = 0
held (some b) = 1

-- A host has a call behind the guard exactly while it holds its entry, and never two.
abbrev pub IsGuarded : ℕ → Service → Type 0
IsGuarded host s = probes host s.running ≡ held (lookup host s.in_flight)

-- The calls for a host that were abandoned.
abbrev abandoned_by : {s t : Service} → ℕ → Step s t → ℕ
abandoned_by host (abandons k s busy) = if k == host then 1 else 0
abandoned_by host (starts k s t e) = 0
abandoned_by host (ends k success s busy) = 0
abandoned_by host (dies k s lingers) = 0

abbrev pub abandoned : {s t : Service} → ℕ → Steps s t → ℕ
abandoned host done = 0
abandoned host (next e rest) = abandoned_by host e + abandoned host rest

-- No more scripts are on a host than its calls and `n` that linger.
abbrev IsCovered : ℕ → ℕ → Service → Type 0
IsCovered host n s = probes host s.scripts ≤ probes host s.running + n
