-- ===== src/Common/Numerals.antt =====
-- Decimal numerals: strconv.Itoa, strconv.Atoi and the %d of package fmt.
use Prim.Native.Nat.{ℕ, zero, suc, ◌+◌, ◌-◌, ◌*◌, ◌/◌, ◌%◌}
use mathlib.Core.Bool.{Bool, ◌&&◌}
use mathlib.Core.Option.{Option, none, some}
use mathlib.Core.List.{[], ◌∷◌, ◌++◌}
use pantau.Common.Tests.{leb, ltb, ◌==◌, if◌then◌else◌}
use pantau.Common.Text.{Text}
use pantau.Common.Int.{ℤ, pos, negsuc}

-- The digits of a number below 10 ^ fuel.
digits : ℕ → ℕ → Text
digits zero n = []
digits (suc fuel) n =
    let rest = digits fuel (n / 10) in
    if ltb n 10 then (b'0' + n) ∷ [] else rest ++ ((b'0' + n % 10) ∷ [])

-- %d, of a number below 10 ^ 20, as every int64 is
unfoldable pub itoa : ℕ → Text
unfolding digits
itoa n = digits 20 n

is_digit : ℕ → Bool
is_digit c = leb b'0' c && leb c b'9'

value_from : ℕ → Text → Option ℕ
unfolding is_digit
value_from n [] = some n
value_from n (c ∷ s) =
    let rest = value_from (10 * n + (c - b'0')) s in if is_digit c then rest else none

unfoldable pub digits_value : Text → Option ℕ
unfolding value_from
digits_value [] = none
digits_value (c ∷ s) = value_from 0 (c ∷ s)

-- strconv.Atoi and strconv.ParseInt in base 10, for numerals that fit
unfoldable pub atoi : Text → Option ℤ
unfolding digits_value
atoi [] = none
atoi (c ∷ s) =
    if c == b'-'
    then elim (digits_value s) [
      | none ↦ none
      | some zero ↦ some (pos 0)
      | some (suc n) ↦ some (negsuc n)
    ]
    else if c == b'+'
    then elim (digits_value s) [ none ↦ none | some n ↦ some (pos n) ]
    else elim (digits_value (c ∷ s)) [ none ↦ none | some n ↦ some (pos n) ]
