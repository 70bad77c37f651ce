-- ===== src/Totp/Codes.antt =====
-- One-time codes: their shape, and exactly which codes are accepted.
use pantau.Common.{
  ℕ, ◌+◌, ◌-◌, ◌/◌, ◌%◌, ◌≤◌, ◌<◌, ◌≡◌, ◌≢◌, ◌↔◌, refl, ap, ◌⊎◌, inl, inr, true, Option, none, some,
  List, [], ◌∷◌, leb, length, arith, Bool-cases, All, Option-cases,
}
use mathlib.Core.Path.{subst}
use pantau.Common.Text.{Text, teq_iff, trim_space}
use pantau.Totp.{
  Crypto, IsCrypto, mac_offset, binary_code, six_digits, decode_secret, put_uint64, generate_otp,
  otp_matches, scan_steps, window, validate_totp,
}

-- Every byte that the truncation reads is a byte of the HMAC.
pub offset_in_range :
    (c : Crypto) (key message : List ℕ)
    → IsCrypto c
    → mac_offset (c.hmac_sha1 key message) + 3 < length (c.hmac_sha1 key message)
unfolding mac_offset
offset_in_range c key message ok = omega (arith, ok.mac_length key message)

abbrev pub IsDigit : ℕ → Type 0
IsDigit b = (b'0' ≤ b) × (b ≤ b'9')

six_digits-IsDigit : (n : ℕ) → All IsDigit (six_digits n)
unfolding six_digits
six_digits-IsDigit n = omega arith

otp_matches_iff : (o : Option Text) (code : Text) → (otp_matches o code ≡ true) ↔ (o ≡ some code)
unfolding otp_matches
otp_matches_iff none code = (λ h. cc, λ h. cc)
otp_matches_iff (some e) code =
    (λ h. ap some ((teq_iff e code).0 h), λ h. (teq_iff e code).1 (ground arith))

-- A step at which the code is good and has not been used up.
abbrev pub Accepts : Crypto → Text → Text → ℕ → ℕ → Type 0
Accepts c secret code last_step step = (last_step < step) × (generate_otp c secret step ≡ some code)

scan_sound :
    (c : Crypto) (secret code : Text) (last_step : ℕ) (steps : List ℕ) (s : ℕ) (P : ℕ → Type 0)
    → All P steps
    → scan_steps c secret code last_step steps ≡ some s
    → P s × (last_step < s) × (generate_otp c secret s ≡ some code)
unfolding scan_steps
scan_sound c secret code last_step [] s P ps h = cc
scan_sound c secret code last_step (step ∷ steps) s P ps h =
    elim (Bool-cases (leb step last_step)) [
      | inl used ↦ scan_sound c secret code last_step steps s P ps.1 (ground (arith, used, h))
      | inr fresh ↦ elim (Bool-cases (otp_matches (generate_otp c secret step) code)) [
        | inl hit ↦
            let found : step ≡ s = ground (arith, fresh, hit, h) in
            (
              subst P found ps.0,
              ground (arith, fresh, found),
              subst (λ t. generate_otp c secret t ≡ some code) found
                  ((otp_matches_iff (generate_otp c secret step) code).0 hit),
            )
        | inr miss ↦
            scan_sound c secret code last_step steps s P ps.1 (ground (arith, fresh, miss, h))
      ]
    ]

scan_complete :
    (c : Crypto) (secret code : Text) (last_step : ℕ) (steps : List ℕ)
    → scan_steps c secret code last_step steps ≡ none
    → All (λ s. ¬ Accepts c secret code last_step s) steps
unfolding scan_steps
scan_complete c secret code last_step [] h = tt
scan_complete c secret code last_step (step ∷ steps) h = elim (Bool-cases (leb step last_step)) [
  | inl used ↦ (
    λ a. absurd (ground (arith, used, a.0)),
    scan_complete c secret code last_step steps (ground (arith, used, h)),
  )
  | inr fresh ↦ elim (Bool-cases (otp_matches (generate_otp c secret step) code)) [
    | inl hit ↦ absurd (ground (arith, fresh, hit, h))
    | inr miss ↦ (
      λ a. absurd (ground (arith, miss, (otp_matches_iff (generate_otp c secret step) code).1 a.1)),
      scan_complete c secret code last_step steps (ground (arith, fresh, miss, h)),
    )
  ]
]

abbrev pub InWindow : ℕ → ℕ → Type 0
InWindow now step = (now / 30 ≤ step + 1) × (step ≤ now / 30 + 1)

window-InWindow : (now : ℕ) → All (InWindow now) (window now)
window-InWindow now = omega arith

-- An accepted code is the code of a step that is later than the last one used and at most one step
-- away from the clock; blanks around the code are ignored.
pub validate_totp_sound :
    (c : Crypto) (secret code : Text) (last_step now s : ℕ)
    → validate_totp c secret code last_step now ≡ some s
    → InWindow now s × (last_step < s) × (generate_otp c secret s ≡ some (trim_space code))
unfolding validate_totp
validate_totp_sound c secret code last_step now s h =
    scan_sound c secret (trim_space code) last_step (window now) s (InWindow now)
      (window-InWindow now) (ground (arith, h))

generate_otp_shape :
    (c : Crypto) (secret code : Text) (step : ℕ)
    → generate_otp c secret step ≡ some code
    → (length code ≡ 6) × All IsDigit code
unfolding generate_otp
generate_otp_shape c secret code step h = elim (Option-cases (decode_secret c secret)) [
  | inl bad ↦ absurd (ground (arith, bad, h))
  | inr (key, good) ↦
      let made : six_digits (binary_code (c.hmac_sha1 key (put_uint64 step)) % 1000000) ≡ code =
        ground (arith, good, h) in
      subst (λ t. (length t ≡ 6) × All IsDigit t) made
        (unfold six_digits in refl, six_digits-IsDigit _)
]

-- From the second step after the epoch on, a refused code is the code of no unused step of the window.
pub validate_totp_complete :
    (c : Crypto) (secret code : Text) (last_step now s : ℕ)
    → 30 ≤ now
    → validate_totp c secret code last_step now ≡ none
    → InWindow now s
    → last_step < s
    → generate_otp c secret s ≢ some (trim_space code)
unfolding validate_totp
validate_totp_complete c secret code last_step now s late h near fresh good =
    let six : length (trim_space code) ≡ 6 =
      (generate_otp_shape c secret (trim_space code) s good).0 in
    let none_of =
      scan_complete c secret (trim_space code) last_step (window now) (ground (arith, six, h)) in
    pick (now / 30) none_of (omega arith)
  where
    Refused : ℕ → Type 0
    Refused t = ¬ Accepts c secret (trim_space code) last_step t

    pick :
        (k : ℕ)
        → Refused (k - 1) × (Refused k × (Refused (k + 1) × Unit {0}))
        → ((s ≡ k - 1) ⊎ (s ≡ k)) ⊎ (s ≡ k + 1)
        → ⊥
    pick k bad (inl (inl e)) =
        bad.0 (subst (Accepts c secret (trim_space code) last_step) e (fresh, good))
    pick k bad (inl (inr e)) =
        bad.1.0 (subst (Accepts c secret (trim_space code) last_step) e (fresh, good))
    pick k bad (inr e) =
        bad.1.1.0 (subst (Accepts c secret (trim_space code) last_step) e (fresh, good))
