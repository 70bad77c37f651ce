-- ===== src/Triage/Examples.antt =====
-- A host under load, and two requests for one host.
use pantau.Common.{◌*◌, ◌≤◌, ◌<◌, ◌≡◌, refl, true, false, some, [], ◌∷◌, arith}
use pantau.Common.Map.{number_key, lookup, store}
use mathlib.Core.Path.{subst}
use pantau.Triage.{
  Step, Steps, abandons, abandon_probe, HostLoad, busy, load_state, cooldown_seconds, second,
  check_throttle, Service, begin_probe, starts, next, done, probes, start_triage, refused,
  in_progress,
}

-- 20 MB/s, a load of 1.50 on four cores
abbrev writing : HostLoad
writing = record { load_1m = 150; cpu_cores = 4; disk_write_speed_bps = 20971520 }

writing_busy : load_state writing ≡ busy
unfolding load_state
writing_busy = refl

not_cooled : 200000000000 < cooldown_seconds (load_state writing) * second
unfolding load_state
not_cooled = omega arith

wait : (check_throttle writing (some 200000000000) false).remaining ≡ 100
unfolding check_throttle
wait = refl

abbrev idle : Service
idle = record { in_flight = []; last_scan_times = []; running = []; scripts = [] }

abbrev probing : Service
probing = record {
  in_flight = (7, true) ∷ [];
  last_scan_times = [];
  running = 7 ∷ [];
  scripts = 7 ∷ [];
}

begun : begin_probe 7 idle ≡ some probing
unfolding begin_probe lookup store
begun = refl

second_refused : start_triage 7 writing false false 5 probing ≡ refused in_progress
unfolding start_triage lookup
second_refused = refl

-- A probe is cancelled and another is started while the first script lingers.
abbrev cancelled_once : Service
cancelled_once = record { in_flight = []; last_scan_times = []; running = []; scripts = 7 ∷ [] }

abbrev lingering : Service
lingering = record {
  in_flight = (7, true) ∷ [];
  last_scan_times = [];
  running = 7 ∷ [];
  scripts = 7 ∷ 7 ∷ [];
}

begun_again : begin_probe 7 cancelled_once ≡ some lingering
unfolding begin_probe lookup store
begun_again = refl

one_runs : 1 ≤ probes 7 probing.running
unfolding probes
one_runs = omega arith

abandoned_so : abandon_probe 7 probing ≡ cancelled_once
unfolding abandon_probe pantau.Common.Map.delete
abandoned_so = refl

abbrev three_steps : Steps idle lingering
three_steps = next (starts 7 idle probing begun) (
    next (subst (λ t. Step probing t) abandoned_so (abandons 7 probing one_runs))
      (next (starts 7 cancelled_once lingering begun_again) done))
