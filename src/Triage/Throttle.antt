-- ===== src/Triage/Throttle.antt =====
-- Which scans the throttle lets through.
use pantau.Common.{
  ℕ, ◌+◌, ◌*◌, ◌≤◌, ◌<◌, ◌≡◌, Bool, true, false, not, ◌&&◌, ◌||◌, Option, none, some, leb, arith,
}
use pantau.Triage.{HostLoad, second, load_state, cooldown_seconds, is_very_busy, check_throttle}

-- A cooldown of `cooldown` seconds is over after the time that has passed, if any scan was.
abbrev pub has_cooled : ℕ → Option ℕ → Bool
has_cooled cooldown none = true
has_cooled cooldown (some e) = leb (cooldown * second) e

-- A scan is allowed exactly when it is forced, or the host is not very busy and the cooldown of its
-- load is over.
pub check_throttle_allowed :
    (h : HostLoad) (elapsed : Option ℕ) (force : Bool)
    → (check_throttle h elapsed force).allowed ≡ (
        force
        || not (is_very_busy (load_state h))
          && has_cooled (cooldown_seconds (load_state h)) elapsed)
unfolding check_throttle
check_throttle_allowed h elapsed force = ground arith

-- A scan that is refused for its cooldown is told to wait for a second at least, and for no more
-- than the cooldown; one second after that wait the cooldown is over.
pub check_throttle_remaining :
    (h : HostLoad) (e : ℕ)
    → e < cooldown_seconds (load_state h) * second
    → let r = (check_throttle h (some e) false).remaining in
      (1 ≤ r)
      × (r ≤ cooldown_seconds (load_state h))
      × (cooldown_seconds (load_state h) * second ≤ e + (r + 1) * second)
unfolding check_throttle
check_throttle_remaining h e early = ground arith
