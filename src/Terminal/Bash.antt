-- ===== src/Terminal/Bash.antt =====
-- How bash reads a word in double quotes, as far as a launcher script writes one.
use pantau.Common.{
  ℕ, ◌≡◌, refl, ap, ◌∙◌, Bool, true, false, ◌||◌, ◌&&◌, leb, Option, none, some, [], ◌∷◌, ◌++◌,
  ◌==◌, if◌then◌else◌, arith, some_of, append_assoc, inl, inr, Bool-cases, Option-cases,
}
use pantau.Common.Text.{Text, codes}
use pantau.Shell.{escape_quotes, add_bytes}

abbrev pub add_byte : ℕ → Option (Text × Text) → Option (Text × Text)
add_byte c none = none
add_byte c (some (word, rest)) = some (c ∷ word, rest)

-- A dollar sign in front of one of these bytes starts an expansion in bash: of a variable, a parameter,
-- a command or an expression. In front of any other it stands for itself.
abbrev is_name_start : ℕ → Bool
is_name_start c = leb b'a' c && leb c b'z' || leb b'A' c && leb c b'Z' || c == b'_'

abbrev pub starts_expansion : Text → Bool
starts_expansion [] = false
starts_expansion (c ∷ s) =
    is_name_start c || leb b'0' c && leb c b'9' || some_of (λ x. x == c) (codes "{([@*#?-$!")

-- Whether a byte, with this text behind it, ends or changes a word in double quotes.
abbrev pub is_live : ℕ → Text → Bool
is_live c s = c == b'"' || c == b'`' || c == b'$' && starts_expansion s

abbrev pub has_live : Text → Bool
has_live [] = false
has_live (c ∷ s) = let rest = has_live s in is_live c s || rest

-- Within double quotes, up to the one that closes them: the bytes that bash passes on, and what
-- follows. There is none where bash would expand something, or if the quotes stay open. `escaped`
-- is true after a backslash, which only these bytes and a newline take for an escape.
unfoldable pub read_double : Bool → Text → Option (Text × Text)
read_double escaped [] = none
read_double false (c ∷ s) =
    let more = read_double false s in
    let next = read_double true s in
    if c == b'"'
    then some ([], s)
    else if c == b'`' || c == b'$' && starts_expansion s
    then none
    else if c == b'\\'
    then next
    else add_byte c more
read_double true (c ∷ s) =
    let more = read_double false s in
    if c == 10
    then more
    else if c == b'"' || c == b'$' || c == b'`' || c == b'\\'
    then add_byte c more
    else add_byte b'\\' (add_byte c more)

add_bytes-append :
    (s t : Text) (r : Option (Text × Text)) → add_bytes (s ++ t) r ≡ add_bytes s (add_bytes t r)
add_bytes-append s t none = refl
add_bytes-append s t (some (w, r)) = ap (λ x. some (x, r)) (append_assoc s t w)

-- Quoting keeps whether a text continues an expansion.
starts_expansion-escape :
    (s t : Text)
    → starts_expansion t ≡ false
    → starts_expansion (escape_quotes s ++ t) ≡ starts_expansion s
unfolding escape_quotes
starts_expansion-escape [] t h = h
starts_expansion-escape (c ∷ s) t h = elim (Bool-cases (c == b'\'')) [
  | inl quote ↦ let same : c ≡ b'\'' = ground (arith, quote) in rw (same) refl
  | inr other ↦ rw (other) refl
]

pub is_live-escape :
    (c : ℕ) (s t : Text)
    → starts_expansion t ≡ false
    → is_live c (escape_quotes s ++ t) ≡ is_live c s
is_live-escape c s t h = rw (starts_expansion-escape s t h) refl

abbrev pub has_backslash : Text → Bool
has_backslash s = some_of (λ c. c == b'\\') s

pub read_plain :
    (c : ℕ) (x : Text)
    → is_live c x ≡ false
    → (c == b'\\') ≡ false
    → read_double false (c ∷ x) ≡ add_byte c (read_double false x)
unfolding read_double
read_plain c x l b = ground (arith, l, b)

pub escape_plain :
    (c : ℕ) (s : Text) → (c == b'\'') ≡ false → escape_quotes (c ∷ s) ≡ c ∷ escape_quotes s
unfolding escape_quotes
escape_plain c s q = ground (arith, q)

pub escape_quote :
    (c : ℕ) (s : Text)
    → (c == b'\'') ≡ true
    → escape_quotes (c ∷ s) ≡ b'\'' ∷ b'\\' ∷ b'\'' ∷ b'\'' ∷ escape_quotes s
unfolding escape_quotes
escape_quote c s q = ground (arith, q)

add_bytes-add_byte :
    (c : ℕ) (s : Text) (r : Option (Text × Text)) → add_byte c (add_bytes s r) ≡ add_bytes (c ∷ s) r
add_bytes-add_byte c s r = ground arith

-- A path without live bytes and backslashes is passed on as it is quoted.
pub read_double-quiet :
    (s t : Text)
    → starts_expansion t ≡ false
    → has_backslash s ≡ false
    → has_live s ≡ false
    → read_double false (escape_quotes s ++ t) ≡ add_bytes (escape_quotes s) (read_double false t)
unfolding read_double escape_quotes
read_double-quiet [] t x b h = ground (arith, Option-cases (read_double false t))
read_double-quiet (c ∷ s) t x b h =
    let e = read_double-quiet s t x (ground (arith, b)) (ground (arith, h)) in
    let dead : is_live c (escape_quotes s ++ t) ≡ false =
      is_live-escape c s t x ∙ ground (arith, h) in
    let plain : (c == b'\\') ≡ false = ground (arith, b) in
    elim (Bool-cases (c == b'\'')) [
      | inl quote ↦ elim (Option-cases (read_double false t)) [
        | inl n ↦ ground (arith, quote, e, n)
        | inr (v, f) ↦ ground (arith, quote, e, f)
      ]
      | inr other ↦ rw (escape_plain c s other) (
          read_plain c (escape_quotes s ++ t) dead plain
          ∙ ap (add_byte c) e
          ∙ add_bytes-add_byte c (escape_quotes s) (read_double false t))
    ]
