-- ===== src/Reclaim/Safety.antt =====
-- What a reclaim can truncate.
use mathlib.Core.List.{reverse, reverse-cons}
use mathlib.Core.Path.{subst}
use pantau.Common.{
  ◌≡◌, refl, sym, Bool, true, false, ◌||◌, List, [], ◌∷◌, ◌++◌, ◌==◌, if◌then◌else◌, append-nil,
  some, inl, inr, arith, Bool-cases, All, All-append,
}
use pantau.Common.Text.{Text, codes, teq, has_prefix, to_lower, trim_space, split, split_go, join}
use pantau.Shell.{bare, read_word, shell_quote, read_word-shell_quote}
use pantau.Reclaim.{
  slash, tail, push_up, or_dot, absolute_segments, relative_segments, clean_path,
  is_database_or_protected_file, is_log_or_disposable_file, is_system_path, command,
  validate_truncate,
}

-- A text without a slash that is not empty.
abbrev pub IsSegment : Text → Type 0
IsSegment seg = All (λ c. (c == b'/') ≡ false) seg × (teq seg [] ≡ false)

-- A name that stays where it is: a segment that is neither "." nor "..".
abbrev pub IsName : Text → Type 0
IsName seg =
    All (λ c. (c == b'/') ≡ false) seg
    × (teq seg [] ≡ false)
    × (teq seg (codes ".") ≡ false)
    × (teq seg (codes "..") ≡ false)

All-reverse : {A : Type 0} (P : A → Type 0) (xs : List A) → All P xs → All P (reverse xs)
All-reverse P [] h = h
All-reverse P (x ∷ xs) h =
    subst (All P) (sym (reverse-cons x xs))
      (All-append P (reverse xs) (x ∷ []) (All-reverse P xs h.1) (h.0, tt))

choose :
    (P : Text → Type 0) (b : Bool) (xs ys : List Text)
    → (b ≡ true → All P xs)
    → (b ≡ false → All P ys)
    → All P (if b then xs else ys)
choose P true xs ys h k = h refl
choose P false xs ys h k = k refl

NoSlash : Text → Type 0
NoSlash s = All (λ c. (c == b'/') ≡ false) s

split_go-NoSlash : (acc s : Text) → NoSlash acc → All NoSlash (split_go b'/' acc s)
unfolding split_go NoSlash
split_go-NoSlash acc [] h = (All-reverse (λ c. (c == b'/') ≡ false) acc h, tt)
split_go-NoSlash acc (c ∷ s) h =
    choose NoSlash (c == b'/') (reverse acc ∷ split_go b'/' [] s) (split_go b'/' (c ∷ acc) s)
      (λ e. (All-reverse (λ d. (d == b'/') ≡ false) acc h, split_go-NoSlash [] s tt))
      (λ e. split_go-NoSlash (c ∷ acc) s (e, h))

tail-All : (P : Text → Type 0) (stack : List Text) → All P stack → All P (tail stack)
tail-All P [] h = h
tail-All P (s ∷ rest) h = h.1

||_false : (a b : Bool) → (a || b) ≡ false → (a ≡ false) × (b ≡ false)
||_false a b h = ground (arith, h)

absolute_segments-IsName :
    (stack segs : List Text)
    → All IsName stack
    → All NoSlash segs
    → All IsName (absolute_segments stack segs)
unfolding absolute_segments NoSlash
absolute_segments-IsName stack [] h k = h
absolute_segments-IsName stack (seg ∷ segs) h k =
    choose IsName (teq seg [] || teq seg (codes ".")) _ _
      (λ e. absolute_segments-IsName stack segs h k.1)
      (λ e.
        choose IsName (teq seg (codes "..")) _ _
          (λ up. absolute_segments-IsName (tail stack) segs (tail-All IsName stack h) k.1)
          (λ down.
            let (full, dot) = ||_false (teq seg []) (teq seg (codes ".")) e in
            absolute_segments-IsName (seg ∷ stack) segs ((k.0, full, dot, down), h) k.1))

push_up-IsSegment : (stack : List Text) → All IsSegment stack → All IsSegment (push_up stack)
unfolding push_up teq
push_up-IsSegment [] h = (((refl, (refl, tt)), refl), tt)
push_up-IsSegment (s ∷ stack) h =
    choose IsSegment (teq s (codes "..")) _ _ (λ e. (((refl, (refl, tt)), refl), h)) (λ e. h.1)

relative_segments-IsSegment :
    (stack segs : List Text)
    → All IsSegment stack
    → All NoSlash segs
    → All IsSegment (relative_segments stack segs)
unfolding relative_segments NoSlash
relative_segments-IsSegment stack [] h k = h
relative_segments-IsSegment stack (seg ∷ segs) h k =
    choose IsSegment (teq seg [] || teq seg (codes ".")) _ _
      (λ e. relative_segments-IsSegment stack segs h k.1)
      (λ e.
        choose IsSegment (teq seg (codes "..")) _ _
          (λ up. relative_segments-IsSegment (push_up stack) segs (push_up-IsSegment stack h) k.1)
          (λ down.
            relative_segments-IsSegment (seg ∷ stack) segs
              ((k.0, (||_false (teq seg []) (teq seg (codes ".")) e).0), h) k.1))

-- A cleaned relative path does not start with a slash.
join-relative : (l : List Text) → All IsSegment l → has_prefix (or_dot (join slash l)) slash ≡ false
unfolding has_prefix or_dot join teq
join-relative [] h = refl
join-relative ([] ∷ l) h = absurd (ground (arith, h.0.1))
join-relative ((c ∷ s) ∷ []) h = ground (arith, h.0.0.0)
join-relative ((c ∷ s) ∷ t ∷ l) h = ground (arith, h.0.0.0)

-- What a truncation is safe for: the path is absolute and made of names, lies in no system directory,
-- is no database file and is a log or disposable.
pub record IsSafe (target : Text) : Type 0 where
  pub names : List Text
  pub is_path : target ≡ b'/' ∷ join slash (reverse names)
  pub are_names : All IsName names
  pub not_system : is_system_path (to_lower target) ≡ false
  pub not_database : is_database_or_protected_file target ≡ false
  pub is_log : is_log_or_disposable_file target ≡ true

-- A cleaned path that starts with a slash is one of names.
clean_path-names :
    (p : Text)
    → has_prefix (clean_path p) slash ≡ true
    → (names : List Text) × (clean_path p ≡ b'/' ∷ join slash (reverse names)) × All IsName names
unfolding clean_path split NoSlash
clean_path-names p h = elim (Bool-cases (has_prefix p slash)) [
  | inl rooted ↦ (
    absolute_segments [] (split b'/' p),
    ground (arith, rooted),
    absolute_segments-IsName [] (split b'/' p) tt (split_go-NoSlash [] p tt),
  )
  | inr relative ↦ absurd (
      ground (
        arith,
        h,
        relative,
        join-relative (reverse (relative_segments [] (split b'/' p))) (
            All-reverse IsSegment _
              (relative_segments-IsSegment [] (split b'/' p) tt (split_go-NoSlash [] p tt))),
      ))
]

-- A truncation that is not refused runs `truncate -s 0` on one word, which the shell reads as the
-- cleaned path, and that path is safe: absolute, made of names without a slash, other than "." and
-- "..", outside the system directories, no database file, and a log or a disposable file.
pub validate_truncate-IsSafe :
    (target_path cmd : Text)
    → validate_truncate target_path ≡ command cmd
    → (cmd ≡ codes "truncate -s 0 " ++ shell_quote (clean_path (trim_space target_path)))
      × (read_word bare (shell_quote (clean_path (trim_space target_path)))
          ≡ some (clean_path (trim_space target_path), []))
      × IsSafe (clean_path (trim_space target_path))
unfolding validate_truncate
validate_truncate-IsSafe target_path cmd e =
    let target = clean_path (trim_space target_path) in
    let absolute : has_prefix target slash ≡ true = ground (arith, e) in
    let (names, path, are_names) = clean_path-names (trim_space target_path) absolute in
    (
      ground (arith, e),
      rw⁻¹ (append-nil (shell_quote target)) (read_word-shell_quote target [] tt),
      record {
        names = names;
        is_path = path;
        are_names = are_names;
        not_system = ground (arith, e);
        not_database = ground (arith, e);
        is_log = ground (arith, e);
      },
    )
