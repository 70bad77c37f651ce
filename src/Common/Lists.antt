-- ===== src/Common/Lists.antt =====
-- Lists measured and indexed by native numbers, under the library's names.
use Prim.Native.Nat.{ℕ, zero, suc, ◌+◌, ◌-◌, ◌≤◌, ◌<◌}
use mathlib.Core.Path.{◌≡◌, refl, ap, ◌∙◌}
use mathlib.Core.Bool.{Bool, false, ◌||◌}
use mathlib.Core.List.{List, [], ◌∷◌, ◌++◌, map}
use mathlib.Core.Option.{Option, none, some}
use native.Mathlib.Omega.{arith}
use pantau.Common.Tests.{◌==◌, if◌then◌else◌}

module _ {ℓ} {A : Type ℓ} where
  abbrev pub length : List A → ℕ
  length [] = 0
  length (x ∷ xs) = suc (length xs)

  abbrev pub get_elem? : List A → ℕ → Option A
  get_elem? [] i = none
  get_elem? (x ∷ xs) zero = some x
  get_elem? (x ∷ xs) (suc i) = get_elem? xs i

  abbrev pub get_or : List A → ℕ → A → A
  get_or [] i d = d
  get_or (x ∷ xs) zero d = x
  get_or (x ∷ xs) (suc i) d = get_or xs i d

  -- A write out of bounds changes nothing.
  abbrev pub set : List A → ℕ → A → List A
  set [] i v = []
  set (x ∷ xs) zero v = v ∷ xs
  set (x ∷ xs) (suc i) v = x ∷ set xs i v

  abbrev pub take : ℕ → List A → List A
  take zero xs = []
  take (suc n) [] = []
  take (suc n) (x ∷ xs) = x ∷ take n xs

  abbrev pub drop : ℕ → List A → List A
  drop zero xs = xs
  drop (suc n) [] = []
  drop (suc n) (x ∷ xs) = drop n xs

  -- The elements that pass a Boolean test.
  abbrev pub keep : (A → Bool) → List A → List A
  keep p [] = []
  keep p (x ∷ xs) = let rest = keep p xs in if p x then x ∷ rest else rest

  -- Whether some element passes a Boolean test.
  abbrev pub some_of : (A → Bool) → List A → Bool
  some_of p [] = false
  some_of p (x ∷ xs) = p x || some_of p xs

  -- The last `n` elements, or all of a shorter list.
  abbrev pub take_last : ℕ → List A → List A
  take_last n xs = drop (length xs - n) xs

  pub length-append : (xs ys : List A) → length (xs ++ ys) ≡ length xs + length ys
  length-append [] ys = omega arith
  length-append (x ∷ xs) ys = omega (arith, length-append xs ys)

  pub length-drop : (n : ℕ) (xs : List A) → length (drop n xs) ≡ length xs - n
  length-drop zero xs = omega arith
  length-drop (suc n) [] = omega arith
  length-drop (suc n) (x ∷ xs) = omega (arith, length-drop n xs)

  pub length-set : (xs : List A) (i : ℕ) (v : A) → length (set xs i v) ≡ length xs
  length-set [] i v = refl
  length-set (x ∷ xs) zero v = refl
  length-set (x ∷ xs) (suc i) v = ap suc (length-set xs i v)

  pub drop-append : (n : ℕ) (xs ys : List A) → n ≤ length xs → drop n (xs ++ ys) ≡ drop n xs ++ ys
  drop-append zero xs ys h = refl
  drop-append (suc n) [] ys h = absurd (omega arith)
  drop-append (suc n) (x ∷ xs) ys h = drop-append n xs ys (omega arith)

  drop-nil : (n : ℕ) → drop n [] ≡ []
  drop-nil zero = refl
  drop-nil (suc n) = refl

  pub drop-drop : (m n : ℕ) (xs : List A) → drop m (drop n xs) ≡ drop (n + m) xs
  drop-drop m zero xs = let e : m ≡ 0 + m = omega arith in ap (λ (k : ℕ). drop k xs) e
  drop-drop m (suc n) [] = rw (drop-nil m, drop-nil (suc n + m))
  drop-drop m (suc n) (x ∷ xs) =
      let e : suc (n + m) ≡ suc n + m = omega arith in
      drop-drop m n xs ∙ ap (λ (k : ℕ). drop k (x ∷ xs)) e

  pub length-keep : (p : A → Bool) (xs : List A) → length (keep p xs) ≤ length xs
  length-keep p [] = omega arith
  length-keep p (x ∷ xs) = ground (arith, length-keep p xs)

module _ {ℓ} {A : Type ℓ} where
  pub some_of-append :
      (p : A → Bool) (xs ys : List A) → some_of p (xs ++ ys) ≡ (some_of p xs || some_of p ys)
  some_of-append p [] ys = refl
  some_of-append p (x ∷ xs) ys = ground (arith, some_of-append p xs ys)

module _ {ℓ κ} {A : Type ℓ} where
  abbrev pub All : (A → Type κ) → List A → Type κ
  All P [] = Unit
  All P (x ∷ xs) = P x × All P xs

  pub All-append : (P : A → Type κ) (xs ys : List A) → All P xs → All P ys → All P (xs ++ ys)
  All-append P [] ys hx hy = hy
  All-append P (x ∷ xs) ys hx hy = (hx.0, All-append P xs ys hx.1 hy)

  pub All-drop : (P : A → Type κ) (n : ℕ) (xs : List A) → All P xs → All P (drop n xs)
  All-drop P zero xs h = h
  All-drop P (suc n) [] h = h
  All-drop P (suc n) (x ∷ xs) h = All-drop P n xs h.1

module _ {ℓ κ} {A : Type ℓ} {B : Type κ} where
  pub length-map : (f : A → B) (xs : List A) → length (map f xs) ≡ length xs
  length-map f [] = refl
  length-map f (x ∷ xs) = ap suc (length-map f xs)

module _ {ℓ} {A : Type ℓ} where
  pub get_or-set :
      (xs : List A) (i j : ℕ) (v d : A)
      → i < length xs
      → get_or (set xs i v) j d ≡ (if i == j then v else get_or xs j d)
  get_or-set [] i j v d h = absurd (omega arith)
  get_or-set (x ∷ xs) zero zero v d h = refl
  get_or-set (x ∷ xs) zero (suc j) v d h = ground arith
  get_or-set (x ∷ xs) (suc i) zero v d h = ground arith
  get_or-set (x ∷ xs) (suc i) (suc j) v d h = ground (arith, get_or-set xs i j v d (omega arith))

module _ {ℓ κ} {A : Type ℓ} {B : Type κ} where
  pub get_or-map :
      (f : A → B) (xs : List A) (i : ℕ) (d : A) → get_or (map f xs) i (f d) ≡ f (get_or xs i d)
  get_or-map f [] i d = refl
  get_or-map f (x ∷ xs) zero d = refl
  get_or-map f (x ∷ xs) (suc i) d = get_or-map f xs i d
