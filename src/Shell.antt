-- ===== src/Shell.antt =====
-- The shellQuote functions of internal/inspector/inspector.go and internal/storagetriage, and how a
-- POSIX shell reads what they write.
mod Examples
use pantau.Common.{
  ℕ, ◌≡◌, refl, ◌∙◌, ap, Bool, true, false, Option, none, some, List, [], ◌∷◌, ◌++◌, ◌==◌,
  if◌then◌else◌, arith, Bool-cases, append_assoc, append-nil, some_of, ◌||◌, inl, inr,
}
use pantau.Common.Text.{Text, codes}

-- strings.ReplaceAll(s, "'", `'\''`)
unfoldable pub escape_quotes : Text → Text
escape_quotes [] = []
escape_quotes (c ∷ s) =
    let rest = escape_quotes s in
    if c == b'\'' then b'\'' ∷ b'\\' ∷ b'\'' ∷ b'\'' ∷ rest else c ∷ rest

unfoldable pub shell_quote : Text → Text
unfolding escape_quotes
shell_quote s = b'\'' ∷ escape_quotes s ++ b'\'' ∷ []

-- The bytes that a POSIX shell does not read as themselves outside quotes.
is_special : ℕ → Bool
is_special c = some_of (λ m. m == c) (codes "|&;<>()$`\"*?[#~=%!{}\n\t")

abbrev add_byte : ℕ → Option (Text × Text) → Option (Text × Text)
add_byte c none = none
add_byte c (some (word, rest)) = some (c ∷ word, rest)

abbrev pub add_bytes : Text → Option (Text × Text) → Option (Text × Text)
add_bytes s none = none
add_bytes s (some (word, rest)) = some (s ++ word, rest)

-- Where a shell stands while it reads a word: outside quotes, within single quotes, or after `\`.
pub data Mode : Type 0 where
  bare quoted escaped : Mode

-- The first word of a command line, up to a blank, and what follows it. There is none if a quote is
-- open, or where the shell would do more than read a word.
unfoldable pub read_word : Mode → Text → Option (Text × Text)
unfolding is_special
read_word bare [] = some ([], [])
read_word quoted [] = none
read_word escaped [] = none
read_word bare (c ∷ s) =
    let opened = read_word quoted s in
    let next = read_word escaped s in
    let more = read_word bare s in
    if c == 32
    then some ([], c ∷ s)
    else if c == b'\''
    then opened
    else if c == b'\\'
    then next
    else if is_special c
    then none
    else add_byte c more
read_word quoted (c ∷ s) =
    let closed = read_word bare s in
    let more = read_word quoted s in if c == b'\'' then closed else add_byte c more
read_word escaped (c ∷ s) = add_byte c (read_word bare s)

-- A word ends here: at the end of the line or at a blank.
abbrev pub EndsWord : Text → Type 0
EndsWord [] = Unit
EndsWord (c ∷ s) = c ≡ 32

add_bytes-add_byte :
    (c : ℕ) (s : Text) (o : Option (Text × Text)) → add_byte c (add_bytes s o) ≡ add_bytes (c ∷ s) o
add_bytes-add_byte c s none = refl
add_bytes-add_byte c s (some (word, rest)) = refl

quoted-read :
    (s rest : Text)
    → read_word quoted (escape_quotes s ++ b'\'' ∷ rest) ≡ add_bytes s (read_word bare rest)
unfolding read_word escape_quotes
quoted-read [] rest = no_bytes (read_word bare rest)
  where
    no_bytes : (o : Option (Text × Text)) → o ≡ add_bytes [] o
    no_bytes none = refl
    no_bytes (some (word, after)) = refl
quoted-read (c ∷ s) rest = elim (Bool-cases (c == b'\'')) [
  | inl quote ↦
      let at : c ≡ b'\'' = ground arith in
      rw at (
        ap (add_byte b'\'') (quoted-read s rest) ∙ add_bytes-add_byte b'\'' s (read_word bare rest))
  | inr plain ↦
      rw (plain, plain)
        (ap (add_byte c) (quoted-read s rest) ∙ add_bytes-add_byte c s (read_word bare rest))
]

ends_word : (rest : Text) → EndsWord rest → read_word bare rest ≡ some ([], rest)
unfolding read_word
ends_word [] end = refl
ends_word (c ∷ rest) end = ground (arith, end)

-- A shell reads a quoted text, up to the end of its word, as one word: the text itself.
pub read_word-shell_quote :
    (s rest : Text) → EndsWord rest → read_word bare (shell_quote s ++ rest) ≡ some (s, rest)
unfolding read_word shell_quote
read_word-shell_quote s rest end =
    rw (append_assoc (escape_quotes s) (b'\'' ∷ []) rest)
      (quoted-read s rest ∙ ap (add_bytes s) (ends_word rest end) ∙ whole)
  where
    whole : add_bytes s (some ([], rest)) ≡ some (s, rest)
    whole = rw append-nil refl
