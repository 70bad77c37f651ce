-- ===== src/Terminal/Keys/Admin.antt =====
-- The keys of a host's administrator.
use pantau.Common.{
  All, ℕ, ◌≡◌, refl, ◌∙◌, Bool, true, false, not, ◌&&◌, Option, none, some, List, [], ◌∷◌, ◌++◌,
  arith, keep, inl, inr, Bool-cases, Option-cases, append_assoc, append-nil,
}
use pantau.Common.Text.{Text, codes, teq, has_prefix, contains, trim_space, fields}
use pantau.Terminal.Keys.{
  key_prefix, first_tag, survives, sweep_expired_keys, cleanup_key, inject_key,
}

is_none : Option ℕ → Bool
is_none none = true
is_none (some n) = false

-- A line that has no tag and does not contain the prefix of one.
unfoldable pub is_admin : Text → Bool
unfolding is_none
is_admin l = is_none (first_tag (fields l)) && not (contains l key_prefix)

keep-keep :
    (p q : Text → Bool) (ls : List Text)
    → ((l : Text) → p l ≡ true → q l ≡ true)
    → keep p (keep q ls) ≡ keep p ls
keep-keep p q [] h = refl
keep-keep p q (l ∷ ls) h = ground (arith, h l, keep-keep p q ls h)

keep-append : (p : Text → Bool) (xs ys : List Text) → keep p (xs ++ ys) ≡ keep p xs ++ keep p ys
keep-append p [] ys = refl
keep-append p (x ∷ xs) ys = ground (arith, keep-append p xs ys)

has_prefix-append : (s p q : Text) → has_prefix s (p ++ q) ≡ true → has_prefix s p ≡ true
unfolding has_prefix
has_prefix-append s [] q h = refl
has_prefix-append [] (c ∷ p) q h = ground (arith, h)
has_prefix-append (d ∷ s) (c ∷ p) q h = ground (arith, h, has_prefix-append s p q)

contains-append : (s p q : Text) → contains s (p ++ q) ≡ true → contains s p ≡ true
unfolding contains
contains-append [] p q h = has_prefix-append [] p q h
contains-append (c ∷ s) p q h =
    ground (arith, h, has_prefix-append (c ∷ s) p q, contains-append s p q)

-- What happens to the file: keys are injected, swept and cleaned up.
pub data KeyEvent : Type 0 where
  injects : ℕ → Text → KeyEvent
  sweeps : ℕ → KeyEvent
  cleans : Text → KeyEvent

unfoldable pub change : KeyEvent → List Text → List Text
unfolding inject_key sweep_expired_keys cleanup_key
change (injects now line) ls = inject_key now line ls
change (sweeps now) ls = sweep_expired_keys now ls
change (cleans id) ls = cleanup_key id ls

unfoldable pub change_all : List KeyEvent → List Text → List Text
unfolding change
change_all [] ls = ls
change_all (e ∷ es) ls = change_all es (change e ls)

-- Only keys of ours are injected: validKeyLineRegex asks for the prefix.
abbrev pub InjectsOurs : KeyEvent → Type 0
InjectsOurs (injects now line) = contains (trim_space line) key_prefix ≡ true
InjectsOurs (sweeps now) = Unit
InjectsOurs (cleans id) = Unit

survives_admin : (now : ℕ) (l : Text) → is_admin l ≡ true → survives now l ≡ true
unfolding is_admin survives
survives_admin now l h = elim (Option-cases (first_tag (fields l))) [
  | inl n ↦ ground (arith, n)
  | inr (ts, e) ↦ absurd (ground (arith, h, e))
]

admin-sweep :
    (now : ℕ) (ls : List Text) → keep is_admin (sweep_expired_keys now ls) ≡ keep is_admin ls
unfolding sweep_expired_keys
admin-sweep now ls = keep-keep is_admin (survives now) ls (survives_admin now)

untagged : (l tag : Text) → is_admin l ≡ true → not (contains l (key_prefix ++ tag)) ≡ true
unfolding is_admin
untagged l tag h = ground (arith, h, contains-append l key_prefix tag)

admin-cleanup : (id : Text) (ls : List Text) → keep is_admin (cleanup_key id ls) ≡ keep is_admin ls
unfolding cleanup_key
admin-cleanup id ls =
    let tag = trim_space id ++ codes "-" in
    let all_kept =
      keep-keep is_admin (λ l. not (contains l (key_prefix ++ trim_space id ++ codes "-"))) ls
        (λ l h. rw (append_assoc key_prefix (trim_space id) (codes "-")) (untagged l tag h)) in
    elim (Bool-cases (teq (trim_space id) [])) [
      | inl none_given ↦ rw (cleanup_key, none_given) refl
      | inr given ↦ rw (cleanup_key, given) all_kept
    ]

not_admin : (l : Text) → contains l key_prefix ≡ true → keep is_admin (l ∷ []) ≡ []
unfolding is_admin
not_admin l ours = ground (arith, ours)

admin-inject :
    (now : ℕ) (line : Text) (ls : List Text)
    → contains (trim_space line) key_prefix ≡ true
    → keep is_admin (inject_key now line ls) ≡ keep is_admin ls
unfolding inject_key
admin-inject now line ls ours =
    let last = not_admin (trim_space line) ours in
    keep-append is_admin (sweep_expired_keys now ls) (trim_space line ∷ [])
    ∙ rw (last, append-nil, admin-sweep now ls) refl

admin-change :
    (e : KeyEvent) (ls : List Text) → InjectsOurs e → keep is_admin (change e ls) ≡ keep is_admin ls
unfolding change
admin-change (injects now line) ls h = admin-inject now line ls h
admin-change (sweeps now) ls h = admin-sweep now ls
admin-change (cleans id) ls h = admin-cleanup id ls

-- Whatever keys are injected, swept and cleaned up, the lines of authorized_keys that are no keys of
-- Pantau stay as they are and in their order.
pub admin_lines_stay :
    (es : List KeyEvent) (ls : List Text)
    → All InjectsOurs es
    → keep is_admin (change_all es ls) ≡ keep is_admin ls
unfolding change_all
admin_lines_stay [] ls h = refl
admin_lines_stay (e ∷ es) ls h = admin_lines_stay es (change e ls) h.1 ∙ admin-change e ls h.0
