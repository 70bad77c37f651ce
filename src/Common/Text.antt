-- ===== src/Common/Text.antt =====
-- Go strings as lists of bytes, with the functions of package strings that the program calls.
-- Case and space are those of ASCII.
use Prim.Native.Char.{code}
use Prim.Native.String.{String}
use Prim.Native.Nat.{ℕ, ◌+◌, ◌-◌}
use mathlib.Core.Path.{◌≡◌, refl}
use mathlib.Core.Logic.{◌↔◌}
use mathlib.Core.Bool.{Bool, true, false, ◌&&◌, ◌||◌}
use mathlib.Core.List.{List, [], ◌∷◌, ◌++◌, map, reverse}
use native.Mathlib.Omega.{arith}
use pantau.Common.Tests.{leb, ◌==◌, if◌then◌else◌}
use pantau.Common.Lists.{length, drop}

abbrev pub Text : Type 0
Text = List ℕ

-- The code points of a literal; its bytes, if it is ASCII.
abbrev pub codes : String → Text
codes String.[] = []
codes (String.◌∷◌ c s) = code c ∷ codes s

-- s == t
unfoldable pub teq : Text → Text → Bool
teq [] [] = true
teq [] (y ∷ ys) = false
teq (x ∷ xs) [] = false
teq (x ∷ xs) (y ∷ ys) = x == y && teq xs ys

pub teq→eq : (s t : Text) → teq s t ≡ true → s ≡ t
unfolding teq
teq→eq [] [] h = refl
teq→eq [] (y ∷ ys) h = cc
teq→eq (x ∷ xs) [] h = cc
teq→eq (x ∷ xs) (y ∷ ys) h = ground (arith, teq→eq xs ys)

pub teq_refl : (s : Text) → teq s s ≡ true
unfolding teq
teq_refl [] = refl
teq_refl (x ∷ xs) = ground (arith, teq_refl xs)

pub teq_iff : (s t : Text) → (teq s t ≡ true) ↔ (s ≡ t)
teq_iff s t = (teq→eq s t, λ e. rw e (teq_refl t))

-- strings.HasPrefix(s, p)
unfoldable pub has_prefix : Text → Text → Bool
has_prefix s [] = true
has_prefix [] (p ∷ ps) = false
has_prefix (c ∷ s) (p ∷ ps) = c == p && has_prefix s ps

-- strings.TrimPrefix(s, p)
unfoldable pub trim_prefix : Text → Text → Text
unfolding has_prefix
trim_prefix s p = if has_prefix s p then drop (length p) s else s

-- strings.HasSuffix(s, t)
unfoldable pub has_suffix : Text → Text → Bool
unfolding has_prefix
has_suffix s t = has_prefix (reverse s) (reverse t)

-- strings.Contains(s, t)
unfoldable pub contains : Text → Text → Bool
unfolding has_prefix
contains [] t = has_prefix [] t
contains (c ∷ s) t = has_prefix (c ∷ s) t || contains s t

unfoldable pub lower : ℕ → ℕ
lower c = if leb b'A' c && leb c b'Z' then c + 32 else c

-- strings.ToLower
unfoldable pub to_lower : Text → Text
unfolding lower
to_lower s = map lower s

unfoldable pub upper : ℕ → ℕ
upper c = if leb b'a' c && leb c b'z' then c - 32 else c

-- strings.ToUpper
unfoldable pub to_upper : Text → Text
unfolding upper
to_upper s = map upper s

-- strings.EqualFold
unfoldable pub equal_fold : Text → Text → Bool
unfolding to_lower teq
equal_fold s t = teq (to_lower s) (to_lower t)

-- unicode.IsSpace on ASCII
abbrev pub is_space : ℕ → Bool
is_space c = c == 32 || leb 9 c && leb c 13

unfoldable pub trim_left : Text → Text
trim_left [] = []
trim_left (c ∷ s) = let rest = trim_left s in if is_space c then rest else c ∷ s

-- strings.TrimSpace
unfoldable pub trim_space : Text → Text
unfolding trim_left
trim_space s = reverse (trim_left (reverse (trim_left s)))

-- strings.Split(s, sep) for a separator of one byte: never empty
unfoldable pub split_go : ℕ → Text → Text → List Text
split_go sep acc [] = reverse acc ∷ []
split_go sep acc (c ∷ s) =
    let cut = split_go sep [] s in
    let grow = split_go sep (c ∷ acc) s in if c == sep then reverse acc ∷ cut else grow

unfoldable pub split : ℕ → Text → List Text
unfolding split_go
split sep s = split_go sep [] s

-- strings.Join(parts, sep)
unfoldable pub join : Text → List Text → Text
join sep [] = []
join sep (s ∷ []) = s
join sep (s ∷ t ∷ rest) = s ++ sep ++ join sep (t ∷ rest)

-- strings.Fields
abbrev pub flush : Text → List Text → List Text
flush [] rest = rest
flush (c ∷ w) rest = reverse (c ∷ w) ∷ rest

unfoldable pub fields_go : Text → Text → List Text
fields_go acc [] = flush acc []
fields_go acc (c ∷ s) =
    let cut = fields_go [] s in
    let grow = fields_go (c ∷ acc) s in if is_space c then flush acc cut else grow

unfoldable pub fields : Text → List Text
unfolding fields_go
fields s = fields_go [] s
