-- ===== src/Instance/Examples.antt =====
-- Process 0 holds the guard on file 0.
use pantau.Common.{◌≢◌, ◌≡◌, refl, none, some, [], ◌∷◌}
use pantau.Instance.{idle, holds, World, put_at, run}
use pantau.Instance.Race.{two_holders}
use pantau.Common.{arith}
use pantau.Instance.Exclusive.{IsOwned, one_holder}

abbrev locked : World
locked = record {
  path = some 0;
  next_file = 1;
  owner = put_at 0 (some 0) (λ i. none);
  phase = put_at 0 (holds 0) (λ p. idle);
}

-- Without the race the second process is refused.
refused : (run (1 ∷ 1 ∷ []) locked).phase 1 ≡ idle
unfolding run
refused = refl

two_holders_example :
    ((run (1 ∷ 0 ∷ 1 ∷ 0 ∷ 2 ∷ 2 ∷ []) locked).phase 1 ≡ holds 0)
    × ((run (1 ∷ 0 ∷ 1 ∷ 0 ∷ 2 ∷ 2 ∷ []) locked).phase 2 ≡ holds 1)
two_holders_example =
    two_holders 0 1 2 0 locked refl refl refl refl refl refl refl refl refl refl refl

abbrev nobody : World
nobody = record { path = none; next_file = 0; owner = λ i. none; phase = λ p. idle }

owned : IsOwned nobody
owned p i e = ground arith

first_holds : (run (5 ∷ 6 ∷ 5 ∷ 6 ∷ []) nobody).phase 5 ≡ holds 0
unfolding run
first_holds = refl

one_holder_example : (run (5 ∷ 6 ∷ 5 ∷ 6 ∷ []) nobody).phase 6 ≢ holds 0
one_holder_example = one_holder (5 ∷ 6 ∷ 5 ∷ 6 ∷ []) nobody 5 6 0 owned refl first_holds
