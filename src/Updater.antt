-- ===== src/Updater.antt =====
-- internal/updater/updater.go: CompareVersions. Version numbers fit an int.
pub mod Order
pub mod Install
mod Examples
use pantau.Common.{
  ℕ, suc, Bool, true, false, not, ◌&&◌, ◌||◌, Option, none, some, List, [], ◌∷◌, map, ltb, ◌==◌,
  if◌then◌else◌,
}
use pantau.Common.Text.{Text, codes, teq, trim_prefix, trim_space, split}
use pantau.Common.Int.{ℤ, pos_part}
use pantau.Common.Numerals.{atoi}

-- -1, 0 and 1
pub data Comparison : Type 0 where
  older same newer : Comparison

abbrev first_part : List Text → Text
first_part [] = []
first_part (p ∷ ps) = p

-- strconv.Atoi(strings.Split(part, "-")[0]), 0 if that is no number: a sign never comes through
unfoldable pub part_number : Text → ℕ
part_number part = elim (atoi (first_part (split b'-' part))) [ none ↦ 0 | some n ↦ pos_part n ]

abbrev pub compare_part : ℕ → ℕ → Comparison → Comparison
compare_part m n rest = if m == n then rest else if ltb n m then newer else older

-- the loop: a part that is missing is 0
unfoldable pub compare_parts : List ℕ → List ℕ → Comparison
compare_parts [] [] = same
compare_parts [] (n ∷ ns) = compare_part 0 n (compare_parts [] ns)
compare_parts (m ∷ ms) [] = compare_part m 0 (compare_parts ms [])
compare_parts (m ∷ ms) (n ∷ ns) = compare_part m n (compare_parts ms ns)

abbrev pub clean : Text → Text
clean v = trim_prefix (trim_space v) (codes "v")

abbrev pub is_dev : Text → Bool
is_dev v = teq v (codes "dev") || teq v []

abbrev pub numbers : Text → List ℕ
numbers v = map part_number (split b'.' v)

unfoldable pub compare_versions : Text → Text → Comparison
unfolding compare_parts part_number
compare_versions v1 v2 =
    if is_dev (clean v2)
    then (if is_dev (clean v1) then same else newer)
    else if is_dev (clean v1)
    then older
    else compare_parts (numbers (clean v1)) (numbers (clean v2))
