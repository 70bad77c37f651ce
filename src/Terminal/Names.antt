-- ===== src/Terminal/Names.antt =====
-- The names that scripts and files get from the name of a host.
use pantau.Common.{
  ℕ, ◌≡◌, refl, true, false, [], ◌∷◌, ◌++◌, All, All-append, inl, inr, Bool-cases, ◌==◌,
}
use mathlib.Core.List.{reverse, reverse-cons, reverse-append}
use pantau.Common.Text.{Text}
use pantau.Terminal.{
  is_name_byte, is_trimmed, or_host, trim_left_name, trim_name, name_bytes, sanitize_filename,
}

-- One to any number of letters, digits and _.- of which the first is none of _.-
abbrev pub IsFileName : Text → Type 0
IsFileName [] = ⊥
IsFileName (c ∷ s) = (is_trimmed c ≡ false) × All (λ b. is_name_byte b ≡ true) (c ∷ s)

abbrev AreNameBytes : Text → Type 0
AreNameBytes s = All (λ b. is_name_byte b ≡ true) s

name_bytes-AreNameBytes : (s : Text) → AreNameBytes (name_bytes s)
unfolding name_bytes
name_bytes-AreNameBytes [] = tt
name_bytes-AreNameBytes (c ∷ s) = elim (Bool-cases (is_name_byte c)) [
  | inl t ↦ rw (name_bytes, t) (t, name_bytes-AreNameBytes s)
  | inr f ↦ elim (Bool-cases (c == 32)) [
    | inl blank ↦ rw (name_bytes, f, blank) (refl, name_bytes-AreNameBytes s)
    | inr other ↦ rw (name_bytes, f, other) (name_bytes-AreNameBytes s)
  ]
]

trim_left_name-AreNameBytes : (s : Text) → AreNameBytes s → AreNameBytes (trim_left_name s)
unfolding trim_left_name
trim_left_name-AreNameBytes [] h = h
trim_left_name-AreNameBytes (c ∷ s) h = elim (Bool-cases (is_trimmed c)) [
  | inl t ↦ rw (trim_left_name, t) (trim_left_name-AreNameBytes s h.1)
  | inr f ↦ rw (trim_left_name, f) h
]

reverse-AreNameBytes : (s : Text) → AreNameBytes s → AreNameBytes (reverse s)
reverse-AreNameBytes [] h = h
reverse-AreNameBytes (c ∷ s) h = rw (reverse-cons c s) (
    All-append (λ b. is_name_byte b ≡ true) (reverse s) (c ∷ []) (reverse-AreNameBytes s h.1)
      (h.0, tt))

-- A name whose first byte stays is trimmed from its end alone.
abbrev Starts : Text → Type 0
Starts [] = Unit
Starts (c ∷ s) = is_trimmed c ≡ false

trim_left_name-Starts : (s : Text) → Starts (trim_left_name s)
unfolding trim_left_name
trim_left_name-Starts [] = tt
trim_left_name-Starts (c ∷ s) = elim (Bool-cases (is_trimmed c)) [
  | inl t ↦ rw (trim_left_name, t) (trim_left_name-Starts s)
  | inr f ↦ rw (trim_left_name, f) f
]

trim_left_name-last :
    (xs : Text) (c : ℕ)
    → is_trimmed c ≡ false
    → trim_left_name (xs ++ (c ∷ [])) ≡ trim_left_name xs ++ (c ∷ [])
unfolding trim_left_name
trim_left_name-last [] c f = rw (trim_left_name, f) refl
trim_left_name-last (x ∷ xs) c f = elim (Bool-cases (is_trimmed x)) [
  | inl t ↦ rw (trim_left_name, t) (trim_left_name-last xs c f)
  | inr g ↦ rw (trim_left_name, g) refl
]

end_trimmed-Starts : (s : Text) → Starts s → Starts (reverse (trim_left_name (reverse s)))
unfolding trim_left_name
end_trimmed-Starts [] h = tt
end_trimmed-Starts (c ∷ s) h =
    rw
      (
        reverse-cons c s,
        trim_left_name-last (reverse s) c h,
        reverse-append (trim_left_name (reverse s)) (c ∷ []),
      )
      h

or_host-IsFileName : (s : Text) → AreNameBytes s → Starts s → IsFileName (or_host s)
or_host-IsFileName [] h f = (refl, (refl, (refl, (refl, (refl, tt)))))
or_host-IsFileName (c ∷ s) h f = (f, h)

-- Every host name gives a file name that is not empty, consists of letters, digits and _.- and starts
-- with a letter or a digit, so that it neither leaves its directory nor hides nor reads as an option.
pub sanitize_filename-IsFileName : (name : Text) → IsFileName (sanitize_filename name)
unfolding sanitize_filename trim_name
sanitize_filename-IsFileName name =
    let s = trim_left_name (name_bytes name) in
    let safe = trim_left_name-AreNameBytes (name_bytes name) (name_bytes-AreNameBytes name) in
    or_host-IsFileName (reverse (trim_left_name (reverse s)))
      (reverse-AreNameBytes (trim_left_name (reverse s))
        (trim_left_name-AreNameBytes (reverse s) (reverse-AreNameBytes s safe)))
      (end_trimmed-Starts s (trim_left_name-Starts (name_bytes name)))
