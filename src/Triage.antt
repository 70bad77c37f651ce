-- ===== src/Triage.antt =====
-- internal/storagetriage/storagetriage.go: when a storage scan may run. Times are nanoseconds, and
-- the load of a host is in hundredths. The messages of a refusal are left out.
pub mod Throttle
pub mod Exclusive
mod Examples
use pantau.Common.{
  ℕ, zero, suc, ◌==◌, ◌+◌, ◌-◌, ◌*◌, ◌/◌, ◌≡◌, ◌≤◌, ◌<◌, Bool, true, false, not, ◌&&◌, ◌||◌, Option,
  none, some, List, [], ◌∷◌, ltb, leb, if◌then◌else◌,
}
use pantau.Common.Map.{Map, number_key, lookup, store, delete}

pub data LoadState : Type 0 where
  normal busy very_busy : LoadState

-- what CheckThrottle reads of a host
pub record HostLoad : Type 0 where
  pub load_1m : ℕ
  pub cpu_cores : ℕ
  pub disk_write_speed_bps : ℕ

abbrev pub second : ℕ
second = 1000000000

-- 15 and 40 MB/s
abbrev pub write_speed_busy : ℕ
write_speed_busy = 15 * 1024 * 1024

abbrev pub write_speed_very_busy : ℕ
write_speed_very_busy = 40 * 1024 * 1024

unfoldable pub load_state : HostLoad → LoadState
load_state h =
    let is_cpu_overloaded = ltb 0 h.cpu_cores && ltb (200 * h.cpu_cores) h.load_1m in
    if leb write_speed_very_busy h.disk_write_speed_bps || is_cpu_overloaded
    then very_busy
    else if leb write_speed_busy h.disk_write_speed_bps
    then busy
    else normal

-- in seconds
abbrev pub cooldown_seconds : LoadState → ℕ
cooldown_seconds normal = 120
cooldown_seconds busy = 300
cooldown_seconds very_busy = 600

pub record ThrottleStatus : Type 0 where
  pub allowed : Bool
  pub state : LoadState
  pub cooldown : ℕ
  pub remaining : ℕ

abbrev at_least_one : ℕ → ℕ
at_least_one zero = 1
at_least_one (suc n) = suc n

abbrev pub is_very_busy : LoadState → Bool
is_very_busy very_busy = true
is_very_busy _ = false

-- the time since the last scan, if there was one
unfoldable pub check_throttle : HostLoad → Option ℕ → Bool → ThrottleStatus
unfolding load_state
check_throttle h elapsed force =
    let st = load_state h in
    let cooldown = cooldown_seconds st in
    let say : Bool → ℕ → ThrottleStatus = λ allowed remaining. record {
      allowed = allowed;
      state = st;
      cooldown = cooldown;
      remaining = remaining;
    } in
    let cooled = say (not (is_very_busy st)) 0 in
    if force then say true 0 else elim elapsed [
      | none ↦ cooled
      | some e ↦
          if ltb e (cooldown * second)
          then say false (at_least_one ((cooldown * second - e) / second))
          else cooled
    ]

-- the maps of the service, the calls of RunTriage behind the guard, and the probe scripts on the hosts
pub record Service : Type 0 where
  pub in_flight : Map ℕ Bool
  pub last_scan_times : Map ℕ ℕ
  pub running : List ℕ
  pub scripts : List ℕ

-- LoadOrStore and the start of the probe: `none` is ErrBusy
unfoldable pub begin_probe : ℕ → Service → Option Service
begin_probe host s = elim (lookup host s.in_flight) [
  | some b ↦ none
  | none ↦ some (record s {
    in_flight = store host true s.in_flight;
    running = host ∷ s.running;
    scripts = host ∷ s.scripts;
  })
]

-- the list without one of a host
abbrev pub remove_one : ℕ → List ℕ → List ℕ
remove_one host [] = []
remove_one host (h ∷ hs) = let rest = remove_one host hs in if h == host then hs else h ∷ rest

-- the end of RunTriage after its script has ended, with the time of a success, and the deferred Delete
unfoldable pub end_probe : ℕ → Option ℕ → Service → Service
end_probe host success s = record s {
  in_flight = delete host s.in_flight;
  last_scan_times = elim success [
    | none ↦ s.last_scan_times
    | some now ↦ store host now s.last_scan_times
  ];
  running = remove_one host s.running;
  scripts = remove_one host s.scripts;
}

-- the end of RunTriage by CancelTriage or the time limit, which close the connection: the script may
-- linger on the host
unfoldable pub abandon_probe : ℕ → Service → Service
abandon_probe host s = record s {
  in_flight = delete host s.in_flight;
  running = remove_one host s.running;
}

-- How many of a list are of a host.
unfoldable pub probes : ℕ → List ℕ → ℕ
probes host [] = 0
probes host (h ∷ hs) = let rest = probes host hs in if h == host then suc rest else rest

-- What happens, in any interleaving: a request starts its probe, whatever the throttle said before; a
-- call that runs ends or is abandoned; and a script that lingers ends by itself or is killed.
pub data Step : Service → Service → Type 0 where
  starts : (host : ℕ) (s t : Service) → begin_probe host s ≡ some t → Step s t
  ends :
      (host : ℕ) (success : Option ℕ) (s : Service)
      → 1 ≤ probes host s.running
      → Step s (end_probe host success s)
  abandons : (host : ℕ) (s : Service) → 1 ≤ probes host s.running → Step s (abandon_probe host s)
  dies :
      (host : ℕ) (s : Service)
      → probes host s.running < probes host s.scripts
      → Step s (record s { scripts = remove_one host s.scripts })

pub data Steps : Service → Service → Type 0 where
  done : {s : Service} → Steps s s
  next : {s t u : Service} → Step s t → Steps t u → Steps s u

pub data Refusal : Type 0 where
  rate_limited : ThrottleStatus → Refusal
  offline in_progress : Refusal

pub data Start : Type 0 where
  refused : Refusal → Start
  started : Service → Start

-- RunTriage on a known host, up to the start of the probe
unfoldable pub start_triage : ℕ → HostLoad → Bool → Bool → ℕ → Service → Start
unfolding check_throttle begin_probe
start_triage host h is_down force now s =
    let elapsed : Option ℕ = elim (lookup host s.last_scan_times) [
      | none ↦ none
      | some t ↦ some (now - t)
    ] in
    let throttle = check_throttle h elapsed force in
    if not throttle.allowed && not force
    then refused (rate_limited throttle)
    else if is_down
    then refused offline
    else elim (begin_probe host s) [ none ↦ refused in_progress | some t ↦ started t ]
