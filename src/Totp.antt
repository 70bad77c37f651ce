-- ===== src/Totp.antt =====
-- internal/web/totp.go: one-time codes and recovery codes of the second factor.
-- A time step is a natural number: the clock reads at least 30 s after the epoch, so that no
-- step of the window is negative. Random generation and the QR image are left out.
pub mod Codes
pub mod Recovery
use pantau.Common.{
  ℕ, zero, suc, ◌+◌, ◌-◌, ◌*◌, ◌/◌, ◌%◌, ◌^◌, ◌≡◌, Bool, true, false, not, ◌&&◌, Option, none, some,
  List, [], ◌∷◌, leb, ◌==◌, if◌then◌else◌, length, get_or, keep,
}
use pantau.Common.Text.{Text, codes, teq, contains, trim_space, to_upper}

-- The decoders of encoding/base32, crypto/hmac over SHA-1, and SHA-256 in hexadecimal.
pub record Crypto : Type 0 where
  pub decode_padded : Text → Option (List ℕ)
  pub decode_raw : Text → Option (List ℕ)
  pub hmac_sha1 : List ℕ → List ℕ → List ℕ
  pub sha256_hex : Text → Text

-- What the code relies on: an HMAC-SHA1 is 20 bytes long.
pub record IsCrypto (c : Crypto) : Type 0 where
  pub mac_length : (key message : List ℕ) → length (c.hmac_sha1 key message) ≡ 20

-- binary.BigEndian.PutUint64
unfoldable pub put_uint64 : ℕ → List ℕ
put_uint64 n =
    n / 2 ^ 56 % 256
    ∷ n / 2 ^ 48 % 256
    ∷ n / 2 ^ 40 % 256
    ∷ n / 2 ^ 32 % 256
    ∷ n / 2 ^ 24 % 256
    ∷ n / 2 ^ 16 % 256
    ∷ n / 2 ^ 8 % 256
    ∷ n % 256
    ∷ []

-- h[len(h)-1] & 0x0f
unfoldable pub mac_offset : List ℕ → ℕ
mac_offset h = get_or h (length h - 1) 0 % 16

-- The four bytes are disjoint bit fields, so that `|` is a sum.
unfoldable pub binary_code : List ℕ → ℕ
unfolding mac_offset
binary_code h =
    let offset = mac_offset h in
    get_or h offset 0 % 128 * 2 ^ 24
    + get_or h (offset + 1) 0 % 256 * 2 ^ 16
    + get_or h (offset + 2) 0 % 256 * 2 ^ 8
    + get_or h (offset + 3) 0 % 256

abbrev digit : ℕ → ℕ
digit n = b'0' + n % 10

-- fmt.Sprintf("%06d", n) for n below a million
unfoldable pub six_digits : ℕ → Text
six_digits n =
    digit (n / 100000)
    ∷ digit (n / 10000)
    ∷ digit (n / 1000)
    ∷ digit (n / 100)
    ∷ digit (n / 10)
    ∷ digit n
    ∷ []

unfoldable pub decode_secret : Crypto → Text → Option (List ℕ)
decode_secret c secret =
    let clean_secret = to_upper (trim_space secret) in
    if contains clean_secret (codes "=")
    then c.decode_padded clean_secret
    else c.decode_raw clean_secret

unfoldable pub generate_otp : Crypto → Text → ℕ → Option Text
generate_otp c secret time_step = elim (decode_secret c secret) [
  | none ↦ none
  | some key ↦ some (six_digits (binary_code (c.hmac_sha1 key (put_uint64 time_step)) % 1000000))
]

-- subtle.ConstantTimeCompare of the expected code, if there is one
unfoldable pub otp_matches : Option Text → Text → Bool
otp_matches none code = false
otp_matches (some expected) code = teq expected code

-- the loop over the window; `none` is (false, 0)
unfoldable pub scan_steps : Crypto → Text → Text → ℕ → List ℕ → Option ℕ
scan_steps c secret code last_step [] = none
scan_steps c secret code last_step (step ∷ steps) =
    let rest = scan_steps c secret code last_step steps in
    if leb step last_step
    then rest
    else if otp_matches (generate_otp c secret step) code
    then some step
    else rest

abbrev pub window : ℕ → List ℕ
window now = (now / 30 - 1) ∷ (now / 30) ∷ (now / 30 + 1) ∷ []

unfoldable pub validate_totp : Crypto → Text → Text → ℕ → ℕ → Option ℕ
validate_totp c secret code last_step now =
    let clean = trim_space code in
    if length clean == 6 then scan_steps c secret clean last_step (window now) else none

unfoldable pub hash_recovery_code : Crypto → Text → Text
hash_recovery_code c code = c.sha256_hex (to_upper (keep (λ b. not (b == b'-')) (trim_space code)))

-- the index of the first hash that matches
unfoldable pub matched_idx : Text → List Text → Option ℕ
matched_idx h [] = none
matched_idx h (sh ∷ stored) =
    if teq sh h then some 0 else elim (matched_idx h stored) [ none ↦ none | some i ↦ some (suc i) ]

-- the hashes at the other indices
unfoldable pub without_idx : ℕ → ℕ → List Text → List Text
without_idx i idx [] = []
without_idx i idx (sh ∷ stored) =
    let rest = without_idx (suc i) idx stored in if i == idx then rest else sh ∷ rest

-- the remaining hashes; `none` is (false, storedHashes)
unfoldable pub validate_recovery_code : Crypto → Text → List Text → Option (List Text)
validate_recovery_code c code stored = elim (matched_idx (hash_recovery_code c code) stored) [
  | none ↦ none
  | some idx ↦ some (without_idx 0 idx stored)
]
