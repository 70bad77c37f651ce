-- ===== src/StatusPage/History.antt =====
-- internal/store/status_page.go: the 90 days that the page shows for a target, and its uptime.
use native.Mathlib.Nat.{div-lt_iff_lt-mul, le-div_iff_mul-le}
use pantau.Common.{
  ℕ, zero, suc, ◌+◌, ◌-◌, ◌*◌, ◌/◌, ◌≤◌, ◌<◌, ◌≡◌, ◌↔◌, refl, sym, ◌∙◌, ◌&&◌, ◌||◌, none, some,
  List, [], ◌∷◌, ltb, leb, ◌==◌, if◌then◌else◌, keep, arith,
}
use pantau.Common.Map.{number_key, pair_key, lookup}
use pantau.StatusPage.{
  Status, operational, degraded, outage, other_status, Rollup, RollupKey, Rollups, Check,
  percentage, succ_inc, deg_inc, out_inc, record_all,
}
use pantau.StatusPage.Uptime.{statuses_of, total, count, summary, lookup-record_all}

pub record Point : Type 0 where
  pub date : ℕ
  pub status : Status
  pub uptime : ℕ

-- of a day with a row
unfoldable pub day_status : Rollup → Status
day_status r =
    if ltb r.uptime_percentage 9500 || ltb 0 r.outage_checks && leb r.total_checks 2
    then outage
    else if ltb r.uptime_percentage 10000 || ltb 0 r.degraded_checks || ltb 0 r.outage_checks
    then degraded
    else operational

abbrev pub default_uptime : Status → ℕ
default_uptime outage = 0
default_uptime degraded = 5000
default_uptime _ = 10000

-- one round of the loop, for the day that is `ago` days before today
unfoldable pub day_point : ℕ → Rollups → Status → ℕ → ℕ → Point
unfolding day_status
day_point target_id rows current today ago = elim (lookup (target_id, today - ago) rows) [
  | some r ↦ record { date = today - ago; status = day_status r; uptime = r.uptime_percentage }
  | none ↦
      if ago == 0
      then record { date = today; status = current; uptime = default_uptime current }
      else record { date = today - ago; status = operational; uptime = 10000 }
]

-- the last `n` days, the oldest first
unfoldable pub daily_history : ℕ → Rollups → Status → ℕ → ℕ → List Point
unfolding day_point
daily_history target_id rows current today zero = []
daily_history target_id rows current today (suc n) =
    day_point target_id rows current today n ∷ daily_history target_id rows current today n

-- GetDailyRollups
unfoldable pub get_daily_rollups : ℕ → ℕ → ℕ → Rollups → Rollups
get_daily_rollups target_id days today rows =
    keep (λ row. row.0.0 == target_id && leb (today - days) row.0.1) rows

sum_of : (Rollup → ℕ) → Rollups → ℕ
sum_of f [] = 0
sum_of f ((key, r) ∷ rows) = f r + sum_of f rows

uptime_of : Rollups → ℕ → ℕ
unfolding sum_of percentage
uptime_of rows zero = 10000
uptime_of rows (suc n) =
    percentage (sum_of (λ r. r.successful_checks) rows) (sum_of (λ r. r.degraded_checks) rows)
      (suc n)

unfoldable pub uptime_90d : ℕ → ℕ → Rollups → ℕ
unfolding uptime_of get_daily_rollups
uptime_90d target_id today rows =
    let last = get_daily_rollups target_id 90 today rows in
    uptime_of last (sum_of (λ r. r.total_checks) last)

-- PruneDailyRollups
unfoldable pub prune_daily_rollups : ℕ → ℕ → Rollups → Rollups
prune_daily_rollups days today rows = keep (λ row. leb (today - days) row.0.1) rows

-- Every check counts as one of the three.
incs : (sts : List Status) → total succ_inc sts + total deg_inc sts + total out_inc sts ≡ count sts
unfolding total count
incs [] = refl
incs (operational ∷ sts) = omega (arith, incs sts)
incs (degraded ∷ sts) = omega (arith, incs sts)
incs (outage ∷ sts) = omega (arith, incs sts)
incs (other_status s ∷ sts) = omega (arith, incs sts)

percentage_le : (s d t : ℕ) → s + d ≤ suc t → percentage s d (suc t) ≤ 10000
unfolding percentage
percentage_le s d t h =
    let small : ((2 * s + d) * 10000 + suc t) / (2 * suc t) < 10001 =
      (div-lt_iff_lt-mul {k = 2 * suc t} (omega arith)).1 (omega arith) in
    omega (arith, small)

percentage_full : (t : ℕ) → 10000 ≤ percentage (suc t) 0 (suc t)
unfolding percentage
percentage_full t = (le-div_iff_mul-le {k = 2 * suc t} (omega arith)).1 (omega arith)

-- What a row of recorded checks is.
record IsRow (sts : List Status) (r : Rollup) : Type 0 where
  rest : ℕ
  some_check : count sts ≡ suc rest
  degraded_is : r.degraded_checks ≡ total deg_inc sts
  outage_is : r.outage_checks ≡ total out_inc sts
  uptime_is : r.uptime_percentage ≡ percentage (total succ_inc sts) (total deg_inc sts) (suc rest)

summary-IsRow : (sts : List Status) (r : Rollup) → summary sts ≡ some r → IsRow sts r
unfolding summary count
summary-IsRow [] r e = absurd (ground (arith, e))
summary-IsRow (st ∷ sts) r e = record {
  rest = count sts;
  some_check = refl;
  degraded_is = ground (arith, e);
  outage_is = ground (arith, e);
  uptime_is = ground (arith, e);
}

IsRow-status :
    (sts : List Status) (r : Rollup)
    → IsRow sts r
    → (day_status r ≡ operational) ↔ (total deg_inc sts + total out_inc sts ≡ 0)
unfolding day_status
IsRow-status sts r row = (
  λ shown. ground (arith, shown, row.degraded_is, row.outage_is),
  λ clean.
      let all_good : total succ_inc sts ≡ suc row.rest =
        omega (arith, incs sts, row.some_check, clean) in
      let none_bad : total deg_inc sts ≡ 0 = omega (arith, clean) in
      let full : 10000 ≤ r.uptime_percentage =
        rw (row.uptime_is, all_good, none_bad) (percentage_full row.rest) in
      ground (arith, full, clean, row.degraded_is, row.outage_is),
)

-- With any checks recorded, a day on which a target was checked is shown as operational exactly when
-- no check of the day was degraded or an outage.
pub day_status_operational :
    (key : RollupKey) (cs : List Check) (r : Rollup)
    → lookup key (record_all cs []) ≡ some r
    → (day_status r ≡ operational)
      ↔ (total deg_inc (statuses_of key cs) + total out_inc (statuses_of key cs) ≡ 0)
day_status_operational key cs r h =
    IsRow-status (statuses_of key cs) r
      (summary-IsRow (statuses_of key cs) r (sym (lookup-record_all key cs) ∙ h))

-- The percentage of every row, after any checks, is at most 100.
pub record_all-bounded :
    (key : RollupKey) (cs : List Check) (r : Rollup)
    → lookup key (record_all cs []) ≡ some r
    → r.uptime_percentage ≤ 10000
record_all-bounded key cs r h =
    let row = summary-IsRow (statuses_of key cs) r (sym (lookup-record_all key cs) ∙ h) in
    rw row.uptime_is (
      percentage_le (total succ_inc (statuses_of key cs)) (total deg_inc (statuses_of key cs))
        row.rest (omega (arith, incs (statuses_of key cs), row.some_check)))
