-- ===== src/Snapshot/RoundTrip.antt =====
-- What was encrypted is decrypted.
use pantau.Common.{
  Bool-cases, inl, inr, ℕ, suc, zero, ◌+◌, ◌≡◌, refl, ap, false, some, List, [], ◌∷◌, ◌++◌, ltb,
  length, take, drop, arith, length-append,
}
use pantau.Common.Text.{Text, teq, has_prefix, trim_space}
use pantau.Snapshot.{Codec, IsCodec, magic_header, salt_len, nonce_len, encrypt, decrypted, decrypt}

module _ {ℓ} {A : Type ℓ} where
  take-append : (n : ℕ) (xs ys : List A) → length xs ≡ n → take n (xs ++ ys) ≡ xs
  take-append zero [] ys h = refl
  take-append zero (x ∷ xs) ys h = absurd (omega (arith, h))
  take-append (suc n) [] ys h = absurd (omega (arith, h))
  take-append (suc n) (x ∷ xs) ys h = ap (λ l. x ∷ l) (take-append n xs ys (omega (arith, h)))

  drop-append : (n : ℕ) (xs ys : List A) → length xs ≡ n → drop n (xs ++ ys) ≡ ys
  drop-append zero [] ys h = refl
  drop-append zero (x ∷ xs) ys h = absurd (omega (arith, h))
  drop-append (suc n) [] ys h = absurd (omega (arith, h))
  drop-append (suc n) (x ∷ xs) ys h = drop-append n xs ys (omega (arith, h))

long_enough :
    (salt nonce sealed : Text)
    → length salt ≡ salt_len
    → length nonce ≡ nonce_len
    → ltb
        (length (magic_header ++ (salt ++ (nonce ++ sealed))))
        (length magic_header + salt_len + nonce_len)
      ≡ false
long_enough salt nonce sealed hs hn = ground (
  arith,
  hs,
  hn,
  length-append magic_header (salt ++ (nonce ++ sealed)),
  length-append salt (nonce ++ sealed),
  length-append nonce sealed,
)

module _ {ℓ} {P : Type ℓ} where
  -- The parts of an encrypted file, and its length.
  decrypt-parts :
      (c : Codec P) (salt nonce sealed passphrase raw : Text) (p : P)
      → length salt ≡ salt_len
      → length nonce ≡ nonce_len
      → teq (trim_space passphrase) [] ≡ false
      → c.open_sealed (c.derive passphrase salt) nonce sealed ≡ some raw
      → c.unmarshal raw ≡ some p
      → decrypt c (magic_header ++ (salt ++ (nonce ++ sealed))) passphrase ≡ decrypted p
  unfolding decrypt has_prefix
  decrypt-parts c salt nonce sealed passphrase raw p hs hn e o u =
      rw
        (
          decrypt,
          e,
          long_enough salt nonce sealed hs hn,
          drop-append 16 salt (nonce ++ sealed) hs,
          take-append 16 salt (nonce ++ sealed) hs,
          take-append 12 nonce sealed hn,
          drop-append 12 nonce sealed hn,
          o,
          u,
        )
        refl

  -- Whoever encrypts a payload with a passphrase that is not blank gets a file that the same passphrase
  -- decrypts to this payload.
  pub decrypt-encrypt :
      (c : Codec P) (salt nonce passphrase file : Text) (p : P)
      → IsCodec c
      → length salt ≡ salt_len
      → length nonce ≡ nonce_len
      → encrypt c salt nonce p passphrase ≡ some file
      → decrypt c file passphrase ≡ decrypted p
  unfolding encrypt
  decrypt-encrypt c salt nonce passphrase file p codec hs hn e =
      let key = c.derive passphrase salt in
      let sealed = c.seal key nonce (c.marshal p) in
      elim (Bool-cases (teq (trim_space passphrase) [])) [
        | inl blank ↦ absurd (ground (arith, e, blank))
        | inr given ↦
            let same : file ≡ magic_header ++ (salt ++ (nonce ++ sealed)) =
              ground (arith, e, given) in
            rw same (
              decrypt-parts c salt nonce sealed passphrase (c.marshal p) p hs hn given
                (codec.opens key nonce (c.marshal p)) (codec.reads p))
      ]
