-- ===== src/Totp/Recovery.antt =====
-- Recovery codes are used once.
use pantau.Common.{
  ℕ, suc, ◌+◌, ◌<◌, ◌≡◌, ◌↔◌, refl, inl, inr, Bool, true, false, none, some, List, [], ◌∷◌, ◌==◌,
  if◌then◌else◌, arith, Bool-cases, Option-cases,
}
use mathlib.Core.Path.{subst}
use pantau.Common.Text.{Text, teq, teq_iff, teq_refl}
use pantau.Totp.{Crypto, hash_recovery_code, matched_idx, without_idx, validate_recovery_code}

abbrev pub one_if : Bool → ℕ
one_if b = if b then 1 else 0

-- How often a hash is stored.
abbrev pub count : Text → List Text → ℕ
count h [] = 0
count h (x ∷ xs) = one_if (teq x h) + count h xs

-- An index that lies before the list removes nothing.
without_idx_below : (i idx : ℕ) (xs : List Text) → idx < i → without_idx i idx xs ≡ xs
unfolding without_idx
without_idx_below i idx [] h = refl
without_idx_below i idx (x ∷ xs) h = ground (arith, without_idx_below (suc i) idx xs)

count-without_idx :
    (g h : Text) (i k idx : ℕ) (xs : List Text)
    → matched_idx h xs ≡ some k
    → idx ≡ i + k
    → count g xs ≡ count g (without_idx i idx xs) + one_if (teq h g)
unfolding matched_idx without_idx
count-without_idx g h i k idx [] e p = absurd (ground (arith, e))
count-without_idx g h i k idx (x ∷ xs) e p = elim (Bool-cases (teq x h)) [
  | inl hit ↦
      let here : k ≡ 0 = ground (arith, hit, e) in
      let same : x ≡ h = (teq_iff x h).0 hit in
      let at : (i == idx) ≡ true = ground (arith, here, p) in
      rw (at, without_idx_below (suc i) idx xs (omega arith), same) (omega arith)
  | inr miss ↦ elim (Option-cases (matched_idx h xs)) [
    | inl gone ↦ absurd (ground (arith, miss, gone, e))
    | inr (j, found) ↦
        let next : k ≡ suc j = ground (arith, miss, found, e) in
        let at : (i == idx) ≡ false = ground (arith, next, p) in
        rw at (omega (arith, count-without_idx g h (suc i) j idx xs found (omega arith)))
  ]
]

matched-count : (h : Text) (xs : List Text) → matched_idx h xs ≡ none → count h xs ≡ 0
unfolding matched_idx
matched-count h [] e = refl
matched-count h (x ∷ xs) e = elim (Bool-cases (teq x h)) [
  | inl hit ↦ absurd (ground (arith, hit, e))
  | inr miss ↦ elim (Option-cases (matched_idx h xs)) [
    | inl gone ↦ ground (arith, miss, matched-count h xs gone)
    | inr (j, found) ↦ absurd (ground (arith, miss, found, e))
  ]
]

-- An accepted recovery code uses up one stored copy of its hash, and leaves every other hash as
-- often as it was.
pub validate_recovery_code-count :
    (c : Crypto) (code g : Text) (stored rest : List Text)
    → validate_recovery_code c code stored ≡ some rest
    → count g stored ≡ count g rest + one_if (teq (hash_recovery_code c code) g)
unfolding validate_recovery_code
validate_recovery_code-count c code g stored rest e =
    elim (Option-cases (matched_idx (hash_recovery_code c code) stored)) [
      | inl gone ↦ absurd (ground (arith, gone, e))
      | inr (k, found) ↦
          subst (λ r. count g stored ≡ count g r + one_if (teq (hash_recovery_code c code) g))
            (ground (arith, found, e))
            (count-without_idx g (hash_recovery_code c code) 0 k k stored found (omega arith))
    ]

-- A recovery code is refused exactly when its hash is not stored.
pub validate_recovery_code_refused :
    (c : Crypto) (code : Text) (stored : List Text)
    → (validate_recovery_code c code stored ≡ none) ↔ (count (hash_recovery_code c code) stored ≡ 0)
unfolding validate_recovery_code
validate_recovery_code_refused c code stored =
    elim (Option-cases (matched_idx (hash_recovery_code c code) stored)) [
      | inl gone ↦ (
        λ _. matched-count (hash_recovery_code c code) stored gone,
        λ _. rw (gone, validate_recovery_code),
      )
      | inr (k, found) ↦
          (λ e. absurd (ground (arith, found, e)), λ zeros. absurd (taken k found zeros))
    ]
  where
    taken :
        (k : ℕ)
        → matched_idx (hash_recovery_code c code) stored ≡ some k
        → count (hash_recovery_code c code) stored ≡ 0
        → ⊥
    taken k found zeros = ground (
      arith,
      zeros,
      teq_refl (hash_recovery_code c code),
      count-without_idx (hash_recovery_code c code) (hash_recovery_code c code) 0 k k stored found
          (omega arith),
    )
