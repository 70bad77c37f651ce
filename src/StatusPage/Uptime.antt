-- ===== src/StatusPage/Uptime.antt =====
-- What a day's row holds, after any checks.
use pantau.Common.{
  ℕ, suc, ◌+◌, ◌≡◌, refl, ap, ◌∙◌, Bool, true, false, Option, none, some, List, [], ◌∷◌,
  if◌then◌else◌, arith,
}
use pantau.Common.Map.{number_key, pair_key, same_pair_iff, lookup, store, lookup-store}
use pantau.StatusPage.{
  Status, operational, degraded, outage, other_status, Rollup, RollupKey, Rollups, Check,
  percentage, succ_inc, deg_inc, out_inc, upsert_row, record_daily_rollup, record_all,
}

-- The statuses that were recorded for one target and day.
unfoldable pub statuses_of : RollupKey → List Check → List Status
statuses_of key [] = []
statuses_of key ((k, st) ∷ cs) =
    let rest = statuses_of key cs in if pair_key.same k key then st ∷ rest else rest

-- How often a status counts.
unfoldable pub total : (Status → ℕ) → List Status → ℕ
total f [] = 0
total f (st ∷ sts) = f st + total f sts

unfoldable pub count : List Status → ℕ
count [] = 0
count (st ∷ sts) = suc (count sts)

-- A day's row, written down from all the statuses of the day at once.
unfoldable pub summary : List Status → Option Rollup
summary [] = none
summary (st ∷ sts) = some (record {
  total_checks = count (st ∷ sts);
  successful_checks = total succ_inc (st ∷ sts);
  degraded_checks = total deg_inc (st ∷ sts);
  outage_checks = total out_inc (st ∷ sts);
  uptime_percentage =
      percentage (total succ_inc (st ∷ sts)) (total deg_inc (st ∷ sts)) (count (st ∷ sts));
})

-- A row that grows by the statuses of a list, its percentage taken anew.
grown : Rollup → List Status → Rollup
grown r sts = record {
  total_checks = r.total_checks + count sts;
  successful_checks = r.successful_checks + total succ_inc sts;
  degraded_checks = r.degraded_checks + total deg_inc sts;
  outage_checks = r.outage_checks + total out_inc sts;
  uptime_percentage =
      percentage (r.successful_checks + total succ_inc sts) (r.degraded_checks + total deg_inc sts)
        (r.total_checks + count sts);
}

abbrev IsExact : Rollup → Type 0
IsExact r = r.uptime_percentage ≡ percentage r.successful_checks r.degraded_checks r.total_checks

-- The row of a key after some checks, from the row before them.
grow : List Status → Option Rollup → Option Rollup
grow [] o = o
grow (st ∷ sts) o = grow sts (some (upsert_row st o))

grow-statuses_of :
    (key : RollupKey) (cs : List Check) (rows : Rollups)
    → lookup key (record_all cs rows) ≡ grow (statuses_of key cs) (lookup key rows)
unfolding record_all grow statuses_of record_daily_rollup
grow-statuses_of key [] rows = refl
grow-statuses_of key ((k, st) ∷ cs) rows =
    let row = upsert_row st (lookup k rows) in
    grow-statuses_of key cs (store k row rows)
    ∙ ap (grow (statuses_of key cs)) (lookup-store k key row rows)
    ∙ one (pair_key.same k key) (same_pair_iff k key).0
  where
    one :
        (m : Bool)
        → (m ≡ true → k ≡ key)
        → grow
            (statuses_of key cs)
            (if m then some (upsert_row st (lookup k rows)) else lookup key rows)
          ≡ grow (if m then st ∷ statuses_of key cs else statuses_of key cs) (lookup key rows)
    one true h = ap (λ j. grow (statuses_of key cs) (some (upsert_row st (lookup j rows)))) (h refl)
    one false h = refl

abbrev row : ℕ → ℕ → ℕ → ℕ → ℕ → Option Rollup
row t s d o u = some (record {
  total_checks = t;
  successful_checks = s;
  degraded_checks = d;
  outage_checks = o;
  uptime_percentage = u;
})

row_eq :
    {t s d o u v w x y z : ℕ}
    → t ≡ v
    → s ≡ w
    → d ≡ x
    → o ≡ y
    → u ≡ z
    → row t s d o u ≡ row v w x y z
row_eq e f g h k = cc

percentage_eq :
    {s s' d d' t t' : ℕ} → s ≡ s' → d ≡ d' → t ≡ t' → percentage s d t ≡ percentage s' d' t'
percentage_eq e f g = cc

grow-grown : (sts : List Status) (r : Rollup) → IsExact r → grow sts (some r) ≡ some (grown r sts)
unfolding grow grown total count upsert_row
grow-grown [] r h =
    row_eq (omega arith) (omega arith) (omega arith) (omega arith)
      (h ∙ percentage_eq (omega arith) (omega arith) (omega arith))
grow-grown (st ∷ sts) r h =
    grow-grown sts (upsert_row st (some r)) refl
    ∙ row_eq (omega arith) (omega arith) (omega arith) (omega arith)
        (percentage_eq (omega arith) (omega arith) (omega arith))

first-IsExact : (st : Status) → IsExact (upsert_row st none)
unfolding upsert_row percentage
first-IsExact operational = refl
first-IsExact degraded = refl
first-IsExact outage = refl
first-IsExact (other_status s) = refl

grow-summary : (sts : List Status) → grow sts none ≡ summary sts
unfolding grow summary grown total count upsert_row
grow-summary [] = refl
grow-summary (st ∷ sts) =
    grow-grown sts (upsert_row st none) (first-IsExact st)
    ∙ row_eq (omega arith) refl refl refl (percentage_eq refl refl (omega arith))

-- After any checks of any targets, the row of a target and day is what the statuses recorded for
-- them give, counted together, with the percentage rounded once from the counts.
pub lookup-record_all :
    (key : RollupKey) (cs : List Check)
    → lookup key (record_all cs []) ≡ summary (statuses_of key cs)
unfolding lookup
lookup-record_all key cs = grow-statuses_of key cs [] ∙ grow-summary (statuses_of key cs)
