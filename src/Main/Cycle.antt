-- ===== src/Main/Cycle.antt =====
-- How often a host is inspected.
use pantau.Common.{
  ◌*◌, sym, ℕ, ◌+◌, ◌≤◌, ◌≡◌, ◌⊎◌, refl, Bool, true, false, Option, none, some, List, [], ◌∷◌,
  arith, inl, inr, All, Bool-cases, Option-cases,
}
use mathlib.Core.List.{Memᴰ}
use pantau.Common.Int.{ℤ, ◌≤ℤ◌, pos, negsuc}
use pantau.Common.Numerals.{atoi}
use pantau.Common.Text.{Text}
use pantau.Main.{
  second, wrap_int64, duration_of, Host, interval_of, elapsed, due_hosts, run_inspection_cycle,
}

-- A host with this number is listed, is not being inspected, and was never inspected or not for
-- 30 seconds.
abbrev pub IsDue : ℕ → (ℕ → Bool) → List Host → ℕ → Type 0
IsDue now is_inspecting hs id =
    (is_inspecting id ≡ false)
    × (h : Host) × Memᴰ h hs
    × (h.id ≡ id)
    × ((h.last_inspected ≡ none)
        ⊎ ((last : ℕ) × (h.last_inspected ≡ some last) × (last + 30 * second ≤ now)))

All-IsDue-cons :
    (now : ℕ) (busy : ℕ → Bool) (h : Host) (hs : List Host) (ids : List ℕ)
    → All (IsDue now busy hs) ids
    → All (IsDue now busy (h ∷ hs)) ids
All-IsDue-cons now busy h hs [] d = d
All-IsDue-cons now busy h hs (i ∷ ids) ((b, g, m, e, l), d) =
    ((b, g, Memᴰ.tail m, e, l), All-IsDue-cons now busy h hs ids d)

elapsed_cases :
    (interval : ℤ) (now : ℕ) (o : Option ℕ)
    → pos (30 * second) ≤ℤ interval
    → elapsed interval now o ≡ true
    → (o ≡ none) ⊎ ((last : ℕ) × (o ≡ some last) × (last + 30 * second ≤ now))
elapsed_cases interval now none g e = inl refl
elapsed_cases interval now (some last) g e = inr (last, refl, ground arith)

due_hosts-IsDue :
    (interval : ℤ) (now : ℕ) (busy : ℕ → Bool) (hs : List Host)
    → pos (30 * second) ≤ℤ interval
    → All (IsDue now busy hs) (due_hosts interval now busy hs)
unfolding due_hosts
due_hosts-IsDue interval now busy [] g = tt
due_hosts-IsDue interval now busy (h ∷ hs) g =
    let more =
      All-IsDue-cons now busy h hs (due_hosts interval now busy hs)
        (due_hosts-IsDue interval now busy hs g) in
    elim (Bool-cases (elapsed interval now h.last_inspected)) [
      | inr n ↦ rw (n) more
      | inl e ↦ elim (Bool-cases (busy h.id)) [
        | inl b ↦ rw (e, b) more
        | inr b ↦
            rw (e, b)
              ((b, h, Memᴰ.head refl, refl, elapsed_cases interval now h.last_inspected g e), more)
      ]
    ]

-- The largest number of seconds that fits a Duration.
abbrev pub max_seconds : ℕ
max_seconds = 9223372036

-- The setting is no number of seconds that is too large for a Duration.
abbrev pub IsInRange : Option Text → Type 0
IsInRange none = Unit
IsInRange (some s) = (sec : ℕ) → atoi s ≡ some (pos sec) → sec ≤ max_seconds

duration_of_small : (sec : ℕ) → sec ≤ max_seconds → duration_of sec ≡ pos (sec * second)
unfolding duration_of wrap_int64
duration_of_small sec h = ground arith

interval_of_le :
    (setting : Option Text) (interval : ℤ)
    → IsInRange setting
    → interval_of setting ≡ some interval
    → pos (30 * second) ≤ℤ interval
unfolding interval_of
interval_of_le none interval small e = ground arith
interval_of_le (some s) interval small e = elim (Option-cases (atoi s)) [
  | inl n ↦ ground arith
  | inr (pos sec, n) ↦ ground (arith, n, e, duration_of_small sec (small sec n))
  | inr (negsuc k, n) ↦ ground arith
]

-- With a setting that fits a Duration, a host that a cycle starts to inspect is listed, is not being
-- inspected, and was never inspected or at least 30 seconds ago.
pub run_inspection_cycle-IsDue :
    (setting : Option Text) (hosts : List Host) (now : ℕ) (busy : ℕ → Bool) (ids : List ℕ)
    → IsInRange setting
    → run_inspection_cycle setting (some hosts) now busy ≡ some ids
    → All (IsDue now busy hosts) ids
unfolding run_inspection_cycle
run_inspection_cycle-IsDue setting hosts now busy ids small e =
    elim (Option-cases (interval_of setting)) [
      | inl n ↦ ground arith
      | inr (interval, i) ↦
          let d =
            due_hosts-IsDue interval now busy hosts (interval_of_le setting interval small i) in
          let same : due_hosts interval now busy hosts ≡ ids = ground arith in rw (sym same) d
    ]
