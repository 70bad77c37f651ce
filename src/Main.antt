-- ===== src/Main.antt =====
-- main.go: the settings at the start, the port to listen on, and a cycle of inspections.
-- Ports are natural numbers. Times are nanoseconds since some start, and the difference of two times
-- fits a Duration.
pub mod Ports
pub mod Cycle
mod Examples
use pantau.Common.{
  ℕ, zero, suc, ◌+◌, ◌-◌, ◌*◌, ◌%◌, ◌^◌, Bool, true, false, not, ◌&&◌, ◌||◌, Option, none, some,
  List, [], ◌∷◌, ltb, leb, ◌==◌, if◌then◌else◌,
}
use pantau.Common.Text.{Text, codes, teq}
use pantau.Common.Int.{ℤ, pos, negsuc, sub_ℕ, leb_ℤ}
use pantau.Common.Numerals.{atoi}

pub record Config : Type 0 where
  pub port : ℤ
  pub db_path : Text
  pub port_explicit : Bool

-- the first of two variables of the environment that is set
unfoldable pub env_of : (Text → Text) → Text → Text → Text
env_of getenv name other =
    let first = getenv name in if not (teq first []) then first else getenv other

-- resolveConfig; an empty variable is one that is not set
unfoldable pub resolve_config : (Text → Text) → ℤ → Text → Config
unfolding env_of
resolve_config getenv flag_port flag_db =
    let env_port = env_of getenv (codes "PANTAU_PORT") (codes "PORT") in
    let env_db = env_of getenv (codes "PANTAU_DB") (codes "DB_PATH") in
    let db = if teq env_db [] then flag_db else env_db in
    let flags : Config = record { port = flag_port; db_path = db; port_explicit = false } in
    let parsed : Config = elim (atoi env_port) [
      | none ↦ flags
      | some p ↦ record { port = p; db_path = db; port_explicit = true }
    ] in
    if teq env_port [] then flags else parsed

-- The sockets of the machine while a port is tried: whether something answers at a host and port, and
-- whether a listener can be opened there.
pub record Sockets : Type 0 where
  pub answers : Text → ℕ → Bool
  pub binds_tcp4 : ℕ → Bool
  pub binds : Text → ℕ → Bool

abbrev pub loopback : Text
loopback = codes "127.0.0.1"

-- tryListen
unfoldable pub try_listen : Sockets → Text → ℕ → Bool
try_listen s host p =
    let every = teq host [] || teq host (codes "0.0.0.0") in
    if every
    then not (s.answers loopback p) && s.binds_tcp4 p && s.binds host p
    else if teq host loopback
    then not (s.answers loopback p) && s.binds host p
    else not (s.answers host p) && s.binds host p

pub data Listening : Type 0 where
  bound : ℕ → Listening
  port_in_use all_in_use : Listening

-- the loop, with the number of ports that are left
unfoldable pub scan_ports : Sockets → Text → ℕ → ℕ → Listening
unfolding try_listen
scan_ports s host zero p = all_in_use
scan_ports s host (suc n) p =
    let rest = scan_ports s host n (suc p) in if try_listen s host p then bound p else rest

-- listenHostPort
unfoldable pub listen_host_port : Sockets → Text → ℕ → Bool → Listening
unfolding scan_ports
listen_host_port s host port explicit =
    let scanned = scan_ports s host 20 port in
    if explicit then (if try_listen s host port then bound port else port_in_use) else scanned

pub record Host : Type 0 where
  pub id : ℕ
  pub last_inspected : Option ℕ

abbrev pub second : ℕ
second = 1000000000

-- an int64 by its value modulo 2^64
unfoldable pub wrap_int64 : ℕ → ℤ
wrap_int64 n = let m = n % 2 ^ 64 in if ltb m (2 ^ 63) then pos m else negsuc (2 ^ 64 - m - 1)

-- time.Duration(sec) * time.Second
unfoldable pub duration_of : ℕ → ℤ
unfolding wrap_int64
duration_of sec = wrap_int64 (sec * second)

abbrev pub default_interval : ℤ
default_interval = pos (300 * second)

-- the interval of a cycle, none where background inspections are off; Atoi refuses what is no int64
unfoldable pub interval_of : Option Text → Option ℤ
unfolding duration_of
interval_of none = some default_interval
interval_of (some setting) =
    let parsed : Option ℤ = elim (atoi setting) [
      | none ↦ some default_interval
      | some n ↦ elim n [
        | pos sec ↦
            if sec == 0
            then none
            else some (if leb 30 sec && ltb sec (2 ^ 63) then duration_of sec else default_interval)
        | negsuc k ↦ some default_interval
      ]
    ] in
    if teq setting [] then some default_interval else parsed

-- now.Sub(last) >= interval
abbrev pub elapsed : ℤ → ℕ → Option ℕ → Bool
elapsed interval now none = true
elapsed interval now (some last) = leb_ℤ interval (sub_ℕ now last)

-- the hosts that the loop starts to inspect
unfoldable pub due_hosts : ℤ → ℕ → (ℕ → Bool) → List Host → List ℕ
due_hosts interval now is_inspecting [] = []
due_hosts interval now is_inspecting (h ∷ hs) =
    let rest = due_hosts interval now is_inspecting hs in
    if elapsed interval now h.last_inspected && not (is_inspecting h.id) then h.id ∷ rest else rest

-- runInspectionCycle: the hosts that it inspects, none where it returns false
unfoldable pub run_inspection_cycle :
    Option Text → Option (List Host) → ℕ → (ℕ → Bool) → Option (List ℕ)
unfolding interval_of due_hosts
run_inspection_cycle setting hosts now is_inspecting = elim (interval_of setting) [
  | none ↦ none
  | some interval ↦ elim hosts [
    | none ↦ none
    | some hs ↦ some (due_hosts interval now is_inspecting hs)
  ]
]
