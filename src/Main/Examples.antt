-- ===== src/Main/Examples.antt =====
-- A machine where the ports 8080 and 8081 are taken, and a cycle over three hosts.
use pantau.Common.{
  ◌*◌, arith, ◌+◌, ◌≡◌, ◌⊎◌, refl, ℕ, Bool, true, false, not, Option, none, some, List, [], ◌∷◌,
  All, leb, if◌then◌else◌,
}
use pantau.Common.Text.{Text, codes, teq}
use pantau.Common.Int.{pos}
use pantau.Main.{
  second, resolve_config, Sockets, try_listen, bound, port_in_use, listen_host_port, Host,
  run_inspection_cycle,
}
use pantau.Main.Ports.{IsFirstFree, listen_host_port-IsFirstFree}
use pantau.Main.Cycle.{IsDue, IsInRange, run_inspection_cycle-IsDue}

abbrev two_taken : Sockets
two_taken = record {
  answers = λ host p. not (leb 8082 p);
  binds_tcp4 = λ p. true;
  binds = λ host p. true;
}

scanned : listen_host_port two_taken [] 8080 false ≡ bound 8082
unfolding listen_host_port teq
scanned = refl

insisted : listen_host_port two_taken [] 8080 true ≡ port_in_use
unfolding listen_host_port teq
insisted = refl

listen_host_port-IsFirstFree_example :
    IsFirstFree two_taken [] 20 8080 (listen_host_port two_taken [] 8080 false)
    × (((try_listen two_taken [] 8080 ≡ true)
          × (listen_host_port two_taken [] 8080 true ≡ bound 8080))
        ⊎ ((try_listen two_taken [] 8080 ≡ false)
            × (listen_host_port two_taken [] 8080 true ≡ port_in_use)))
listen_host_port-IsFirstFree_example = listen_host_port-IsFirstFree two_taken [] 8080

abbrev only_pantau_port : Text → Text
only_pantau_port name = if teq name (codes "PANTAU_PORT") then codes "9000" else []

from_environment :
    resolve_config only_pantau_port (pos 8080) (codes "a.db")
    ≡ record { port = pos 9000; db_path = codes "a.db"; port_explicit = true }
unfolding resolve_config teq pantau.Common.Numerals.atoi
from_environment = refl

abbrev three_hosts : List Host
three_hosts =
    record { id = 1; last_inspected = none }
    ∷ record { id = 2; last_inspected = some (990 * second) }
    ∷ record { id = 3; last_inspected = some (900 * second) }
    ∷ []

abbrev is_three : ℕ → Bool
is_three n = leb 3 n

-- 5 seconds are too few: the interval is 300 then.
short_interval :
    run_inspection_cycle (some (codes "5")) (some three_hosts) (1000 * second) is_three
    ≡ some (1 ∷ [])
unfolding run_inspection_cycle teq pantau.Common.Numerals.atoi
short_interval = refl

switched_off :
    run_inspection_cycle (some (codes "0")) (some three_hosts) (1000 * second) is_three ≡ none
unfolding run_inspection_cycle teq pantau.Common.Numerals.atoi
switched_off = refl

five : IsInRange (some (codes "5"))
unfolding pantau.Common.Numerals.atoi
five sec e = ground (arith, e)

-- 9,300,000,000 seconds wrap to a negative interval: a host that was inspected just now is due again.
overflowing :
    run_inspection_cycle
      (some (codes "9300000000"))
      (some (record { id = 1; last_inspected = some (1000 * second) } ∷ []))
      (1000 * second)
      is_three
    ≡ some (1 ∷ [])
unfolding run_inspection_cycle teq pantau.Common.Numerals.atoi
overflowing = refl

run_inspection_cycle-IsDue_example : All (IsDue (1000 * second) is_three three_hosts) (1 ∷ [])
run_inspection_cycle-IsDue_example =
    run_inspection_cycle-IsDue (some (codes "5")) three_hosts (1000 * second) is_three (1 ∷ []) five
      short_interval
