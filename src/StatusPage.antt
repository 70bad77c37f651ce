-- ===== src/StatusPage.antt =====
-- internal/store/status_page.go and updateStatusPageRollups of internal/inspector/inspector.go: the
-- public status page. Percentages are hundredths of a percent, as they are rounded; dates are days,
-- and `today` is the date of the clock. Rows come in the order of their ORDER BY.
pub mod Targets
pub mod Uptime
pub mod History
pub mod Overall
pub mod Incidents
mod Examples
use pantau.Common.{
  ℕ, zero, suc, ◌+◌, ◌-◌, ◌*◌, ◌/◌, Bool, true, false, not, ◌&&◌, ◌||◌, Option, none, some, List,
  [], ◌∷◌, ltb, leb, ◌==◌, if◌then◌else◌,
}
use pantau.Common.Text.{Text}
use pantau.Common.Map.{Map, number_key, pair_key, lookup, store}

-- "operational", "degraded", "outage", and whatever else a caller may pass
pub data Status : Type 0 where
  operational degraded outage : Status
  other_status : Text → Status

pub record Rollup : Type 0 where
  pub total_checks : ℕ
  pub successful_checks : ℕ
  pub degraded_checks : ℕ
  pub outage_checks : ℕ
  pub uptime_percentage : ℕ

-- target_id, date: the unique key of status_page_daily_rollups
abbrev pub RollupKey : Type 0
RollupKey = ℕ × ℕ

abbrev pub Rollups : Type 0
Rollups = Map RollupKey Rollup

-- ROUND(((s + 0.5 * d) * 100.0) / t, 2) in hundredths, halves upwards; `t` is not 0
unfoldable pub percentage : ℕ → ℕ → ℕ → ℕ
percentage s d t = ((2 * s + d) * 10000 + t) / (2 * t)

abbrev pub succ_inc : Status → ℕ
succ_inc operational = 1
succ_inc (other_status s) = 1
succ_inc _ = 0

abbrev pub deg_inc : Status → ℕ
deg_inc degraded = 1
deg_inc _ = 0

abbrev pub out_inc : Status → ℕ
out_inc outage = 1
out_inc _ = 0

abbrev pub initial_uptime : Status → ℕ
initial_uptime degraded = 5000
initial_uptime outage = 0
initial_uptime _ = 10000

-- the row that the UPSERT leaves, over the row that is there
unfoldable pub upsert_row : Status → Option Rollup → Rollup
upsert_row st none = record {
  total_checks = 1;
  successful_checks = succ_inc st;
  degraded_checks = deg_inc st;
  outage_checks = out_inc st;
  uptime_percentage = initial_uptime st;
}
upsert_row st (some r) = record {
  total_checks = r.total_checks + 1;
  successful_checks = r.successful_checks + succ_inc st;
  degraded_checks = r.degraded_checks + deg_inc st;
  outage_checks = r.outage_checks + out_inc st;
  uptime_percentage =
      percentage (r.successful_checks + succ_inc st) (r.degraded_checks + deg_inc st)
        (r.total_checks + 1);
}

unfoldable pub record_daily_rollup : RollupKey → Status → Rollups → Rollups
unfolding upsert_row
record_daily_rollup key st rows = store key (upsert_row st (lookup key rows)) rows

-- one call of RecordDailyRollup
abbrev pub Check : Type 0
Check = RollupKey × Status

unfoldable pub record_all : List Check → Rollups → Rollups
record_all [] rows = rows
record_all ((key, st) ∷ cs) rows = record_all cs (record_daily_rollup key st rows)
