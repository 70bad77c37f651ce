-- ===== src/Terminal/Shells.antt =====
-- How the shell that runs a launcher script reads the clause of the directory.
use pantau.Common.{
  ℕ, suc, ◌≤◌, ◌<◌, ◌≡◌, ◌≢◌, ◌↔◌, refl, ap, sym, ◌∙◌, true, false, Option, none, some, [], ◌∷◌,
  ◌++◌, ◌==◌, arith, length, length-append, append_assoc, inl, inr, Bool-cases,
}
use pantau.Common.Text.{Text, codes, teq, has_prefix}
use pantau.Shell.{escape_quotes, add_bytes}
use pantau.Terminal.{clean_initial_dir, build_remote_cd_clause, shells}
use pantau.Terminal.Bash.{
  add_byte, starts_expansion, is_live, has_live, read_double, is_live-escape, has_backslash,
  read_plain, escape_plain, escape_quote, read_double-quiet,
}

-- No word is read, or one of fewer than `n` bytes.
abbrev IsCut : ℕ → Option (Text × Text) → Type 0
IsCut n r = (w rest : Text) → r ≡ some (w, rest) → length w < n

add_byte-IsCut : (c n : ℕ) (r : Option (Text × Text)) → IsCut n r → IsCut (suc n) (add_byte c r)
add_byte-IsCut c n none h = λ w rest e. ground (arith, e)
add_byte-IsCut c n (some (v, u)) h = λ w rest e. ground (arith, e, h v u refl)

IsCut-more : (m n : ℕ) (r : Option (Text × Text)) → m ≤ n → IsCut m r → IsCut n r
IsCut-more m n r le h = λ w rest e. omega (arith, le, h w rest e)

-- A quote in the path is passed on with the three bytes around it.
quote-IsCut :
    (n : ℕ) (x : Text)
    → IsCut n (read_double false x)
    → IsCut (suc (suc (suc (suc n)))) (read_double false (b'\'' ∷ b'\\' ∷ b'\'' ∷ b'\'' ∷ x))
unfolding read_double
quote-IsCut n x h =
    add_byte-IsCut b'\'' _ _
      (add_byte-IsCut b'\\' _ _ (add_byte-IsCut b'\'' _ _ (add_byte-IsCut b'\'' n _ h)))

live-IsCut : (c n : ℕ) (x : Text) → is_live c x ≡ true → IsCut (suc n) (read_double false (c ∷ x))
unfolding read_double
live-IsCut c n x l = λ w rest e. ground (arith, l, e)

read_double-live :
    (s t : Text)
    → starts_expansion t ≡ false
    → has_backslash s ≡ false
    → has_live s ≡ true
    → IsCut (length (escape_quotes s)) (read_double false (escape_quotes s ++ t))
read_double-live [] t x b l = absurd (ground (arith, l))
read_double-live (c ∷ s) t x b l = elim (Bool-cases (is_live c s)) [
  | inl live ↦
      let plain : (c == b'\'') ≡ false = ground (arith, live) in
      rw (escape_plain c s plain) (
        live-IsCut c (length (escape_quotes s)) (escape_quotes s ++ t)
          (is_live-escape c s t x ∙ live))
  | inr dead ↦
      let rec = read_double-live s t x (ground (arith, b)) (ground (arith, l, dead)) in
      let plain : (c == b'\\') ≡ false = ground (arith, b) in
      elim (Bool-cases (c == b'\'')) [
        | inl quote ↦
            rw (escape_quote c s quote)
              (quote-IsCut (length (escape_quotes s)) (escape_quotes s ++ t) rec)
        | inr other ↦
            rw
              (
                escape_plain c s other,
                read_plain c (escape_quotes s ++ t) (is_live-escape c s t x ∙ dead) plain,
              )
              (add_byte-IsCut c (length (escape_quotes s))
                (read_double false (escape_quotes s ++ t)) rec)
      ]
]

-- The clause of an absolute directory, and what stands after the directory's text.
abbrev tail : Text
tail = codes "'" ++ shells

slash_first :
    (d : Text)
    → has_prefix d (codes "/") ≡ true
    → (teq d [] ≡ false) × (teq d (codes "~") ≡ false) × (has_prefix d (codes "~/") ≡ false)
unfolding has_prefix teq
slash_first [] p = ground (arith, p)
slash_first (c ∷ d) p = let first : c ≡ b'/' = ground (arith, p) in rw first (refl, refl, refl)

clause_shape :
    (dir : Text)
    → has_prefix (clean_initial_dir dir) (codes "/") ≡ true
    → build_remote_cd_clause dir ≡ codes "cd '" ++ escape_quotes (clean_initial_dir dir) ++ tail
unfolding build_remote_cd_clause
clause_shape dir p =
    let first = slash_first (clean_initial_dir dir) p in
    rw (build_remote_cd_clause, first.0, first.1, first.2)
      (ap (λ x. codes "cd '" ++ x)
        (append_assoc (escape_quotes (clean_initial_dir dir)) (codes "'") shells))

-- The clause of a directory that is quoted as `e`, in the double quotes of a launcher.
abbrev launched : Text → Text
launched e = (codes "cd '" ++ e ++ tail) ++ b'"' ∷ []

launched-read :
    (e : Text)
    → read_double false (launched e)
      ≡ add_bytes (codes "cd '") (read_double false (e ++ (tail ++ b'"' ∷ [])))
unfolding read_double
launched-read e =
    rw (append_assoc e tail (b'"' ∷ []))
      (bytes_added (read_double false (e ++ (tail ++ b'"' ∷ []))))
  where
    bytes_added :
        (r : Option (Text × Text))
        → add_byte b'c' (add_byte b'd' (add_byte 32 (add_byte b'\'' r)))
          ≡ add_bytes (codes "cd '") r
    bytes_added none = refl
    bytes_added (some (w, u)) = refl

tail-read : read_double false (tail ++ b'"' ∷ []) ≡ some (tail, [])
unfolding read_double
tail-read = refl

-- A word that is read in full is not cut.
cut_differs :
    (e : Text) (r : Option (Text × Text))
    → IsCut (length e) r
    → add_bytes (codes "cd '") r ≢ some (codes "cd '" ++ e ++ tail, [])
cut_differs e none h = λ q. ground (arith, q)
cut_differs e (some (w, u)) h = λ q.
    let same : w ≡ e ++ tail = ground (arith, q) in
    ground (arith, h w u refl, same, length-append e tail)

launched_unchanged :
    (d : Text)
    → has_backslash d ≡ false
    → (read_double false (launched (escape_quotes d))
        ≡ some (codes "cd '" ++ escape_quotes d ++ tail, []))
      ↔ (has_live d ≡ false)
launched_unchanged d b =
    let q = tail ++ b'"' ∷ [] in
    let e = escape_quotes d in
    (
      λ read. elim (Bool-cases (has_live d)) [
        | inl live ↦ absurd (
            cut_differs e (read_double false (e ++ q)) (read_double-live d q refl b live)
              (sym (launched-read e) ∙ read))
        | inr none_live ↦ none_live
      ],
      λ dead.
          let quiet = read_double-quiet d q refl b dead in
          launched-read e ∙ ap (add_bytes (codes "cd '")) (quiet ∙ ap (add_bytes e) tail-read),
    )

-- For a directory that is, cleaned, absolute and without backslashes: the bash that runs a launcher
-- script hands the clause to ssh as it is built exactly if the directory has no double quote, no
-- backquote, and no dollar sign in front of a byte with which it starts an expansion. With one of them
-- the shell on the user's side expands it or ends the word early.
pub launched_clause_unchanged :
    (dir : Text)
    → has_prefix (clean_initial_dir dir) (codes "/") ≡ true
    → has_backslash (clean_initial_dir dir) ≡ false
    → (read_double false (build_remote_cd_clause dir ++ b'"' ∷ [])
        ≡ some (build_remote_cd_clause dir, []))
      ↔ (has_live (clean_initial_dir dir) ≡ false)
launched_clause_unchanged dir p b =
    rw (clause_shape dir p) (launched_unchanged (clean_initial_dir dir) b)
