-- ===== src/Snapshot.antt =====
-- internal/snapshot/snapshot.go: the encrypted file of a snapshot. The ciphers, the key derivation and
-- the JSON of the payload are parameters.
pub mod RoundTrip
pub mod GitHub
pub mod Backup
mod Examples
use pantau.Common.{
  ℕ, ◌+◌, ◌≡◌, Bool, true, false, not, Option, none, some, List, [], ◌∷◌, ◌++◌, ltb, if◌then◌else◌,
  length, take, drop,
}
use pantau.Common.Text.{Text, codes, teq, has_prefix, trim_space}

-- PBKDF2 of a passphrase and a salt, GCM's Seal and Open of a key, a nonce and a text, and the JSON of
-- a payload.
pub record Codec {ℓ} (P : Type ℓ) : Type ℓ where
  pub derive : Text → Text → Text
  pub seal : Text → Text → Text → Text
  pub open_sealed : Text → Text → Text → Option Text
  pub marshal : P → Text
  pub unmarshal : Text → Option P

-- What is known of them: what was sealed is opened by the same key and nonce, and what was marshalled
-- is read again.
pub record IsCodec {ℓ} {P : Type ℓ} (c : Codec P) : Type ℓ where
  pub opens : (key nonce raw : Text) → c.open_sealed key nonce (c.seal key nonce raw) ≡ some raw
  pub reads : (p : P) → c.unmarshal (c.marshal p) ≡ some p

abbrev pub magic_header : Text
magic_header = codes "PANTAU_ENC_V1\n"

abbrev pub salt_len : ℕ
salt_len = 16

abbrev pub nonce_len : ℕ
nonce_len = 12

pub data Decrypted {ℓ} (P : Type ℓ) : Type ℓ where
  empty_passphrase corrupt wrong_passphrase bad_payload : Decrypted P
  decrypted : P → Decrypted P

module _ {ℓ} {P : Type ℓ} where
  -- Encrypt, with the salt and the nonce that are drawn: `none` for an empty passphrase
  unfoldable pub encrypt : Codec P → Text → Text → P → Text → Option Text
  encrypt c salt nonce payload passphrase =
      let key = c.derive passphrase salt in
      if teq (trim_space passphrase) []
      then none
      else some (magic_header ++ (salt ++ (nonce ++ c.seal key nonce (c.marshal payload))))

  -- Decrypt
  unfoldable pub decrypt : Codec P → Text → Text → Decrypted P
  decrypt c file passphrase =
      let body = drop (length magic_header) file in
      let salt = take salt_len body in
      let nonce = take nonce_len (drop salt_len body) in
      let ciphertext = drop nonce_len (drop salt_len body) in
      let key = c.derive passphrase salt in
      if teq (trim_space passphrase) []
      then empty_passphrase
      else if ltb (length file) (length magic_header + salt_len + nonce_len)
      then corrupt
      else if not (has_prefix file magic_header)
      then corrupt
      else elim (c.open_sealed key nonce ciphertext) [
        | none ↦ wrong_passphrase
        | some raw ↦ elim (c.unmarshal raw) [ none ↦ bad_payload | some p ↦ decrypted p ]
      ]
