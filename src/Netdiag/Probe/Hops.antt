-- ===== src/Netdiag/Probe/Hops.antt =====
-- The hops that a trace shows.
use pantau.Common.{
  ℕ, zero, suc, ◌≡◌, refl, ap, Bool, true, false, not, some, List, [], ◌∷◌, ◌++◌, map, arith, inl,
  inr, Option-cases, ==_iff,
}
use pantau.Common.Text.{Text, teq}
use pantau.Common.Map.{Map, number_key, lookup, lookup-store}
use pantau.Netdiag.{HopInfo}
use pantau.Netdiag.Parsers.{GoLib, parse_hop_line, tracepath_line, traceroute_line}
use pantau.Netdiag.Probe.{is_timeout, keep_best, read_hops, max_hop, hop_at, fill_hops, traced_hops}

abbrev pub number_of : HopInfo → ℕ
number_of h = h.hop

-- 1, …, n
abbrev pub up_to : ℕ → List ℕ
up_to zero = []
up_to (suc n) = up_to n ++ suc n ∷ []

-- The hop that is kept for a number has this number.
abbrev IsKeyed : Map ℕ HopInfo → Type 0
IsKeyed m = (n : ℕ) (h : HopInfo) → lookup n m ≡ some h → h.hop ≡ n

keep_best-IsKeyed : (h : HopInfo) (m : Map ℕ HopInfo) → IsKeyed m → IsKeyed (keep_best h m)
unfolding keep_best
keep_best-IsKeyed h m k =
    λ n x e. ground (arith, e, k n x, lookup-store h.hop n h m, ==_iff h.hop n)

read_hops-IsKeyed :
    (g : GoLib) (target : Text) (ls : List Text) (m : Map ℕ HopInfo)
    → IsKeyed m
    → IsKeyed (read_hops g target ls m)
unfolding read_hops
read_hops-IsKeyed g target [] m k = k
read_hops-IsKeyed g target (l ∷ ls) m k = elim (Option-cases (parse_hop_line g l target)) [
  | inl n ↦ rw (read_hops, n) (read_hops-IsKeyed g target ls m k)
  | inr (h, e) ↦
      rw (read_hops, e) (read_hops-IsKeyed g target ls (keep_best h m) (keep_best-IsKeyed h m k))
]

hop_at-number : (n : ℕ) (m : Map ℕ HopInfo) → IsKeyed m → (hop_at n m).hop ≡ n
hop_at-number n m k = elim (Option-cases (lookup n m)) [
  | inl e ↦ ground (arith, e)
  | inr (h, e) ↦ ground (arith, e, k n h e)
]

map-append :
    (xs ys : List HopInfo) → map number_of (xs ++ ys) ≡ map number_of xs ++ map number_of ys
map-append [] ys = refl
map-append (x ∷ xs) ys = ap (λ l. x.hop ∷ l) (map-append xs ys)

fill_hops-numbers :
    (n : ℕ) (m : Map ℕ HopInfo) → IsKeyed m → map number_of (fill_hops n m) ≡ up_to n
unfolding fill_hops
fill_hops-numbers zero m k = refl
fill_hops-numbers (suc n) m k =
    rw
      (
        fill_hops,
        map-append (fill_hops n m) (hop_at (suc n) m ∷ []),
        fill_hops-numbers n m k,
        hop_at-number (suc n) m k,
      )
      refl

-- Whatever a trace prints, the hops that are shown are numbered from 1 on without a gap, up to the
-- greatest number that was read.
pub traced_hops_numbers :
    (g : GoLib) (target : Text) (ls : List Text)
    → map number_of (traced_hops g target ls) ≡ up_to (max_hop (read_hops g target ls []))
unfolding traced_hops lookup
traced_hops_numbers g target ls =
    fill_hops-numbers (max_hop (read_hops g target ls [])) (read_hops g target ls [])
      (read_hops-IsKeyed g target ls [] (λ n h e. absurd (cc)))

-- A hop is shown with a reply.
abbrev pub has_reply : ℕ → Map ℕ HopInfo → Bool
has_reply n m = not (is_timeout (hop_at n m))

silent_line :
    (g : GoLib) (l target : Text) (h : HopInfo)
    → parse_hop_line g l target ≡ some h
    → is_timeout h ≡ true
    → h.rtt ≡ 0
unfolding parse_hop_line tracepath_line traceroute_line teq
silent_line g l target h e t = ground arith

keep_best-reply :
    (h : HopInfo) (m : Map ℕ HopInfo) (n : ℕ)
    → (is_timeout h ≡ true → h.rtt ≡ 0)
    → has_reply n m ≡ true
    → has_reply n (keep_best h m) ≡ true
unfolding keep_best teq
keep_best-reply h m n t k = ground (arith, t, k, lookup-store h.hop n h m, ==_iff h.hop n)

keep_best-replies :
    (h : HopInfo) (m : Map ℕ HopInfo)
    → is_timeout h ≡ false
    → has_reply h.hop (keep_best h m) ≡ true
unfolding keep_best
keep_best-replies h m t = ground (arith, t, lookup-store h.hop h.hop h m, ==_iff h.hop h.hop)

read_hops-reply :
    (g : GoLib) (target : Text) (ls : List Text) (m : Map ℕ HopInfo) (n : ℕ)
    → has_reply n m ≡ true
    → has_reply n (read_hops g target ls m) ≡ true
unfolding read_hops
read_hops-reply g target [] m n k = k
read_hops-reply g target (l ∷ ls) m n k = elim (Option-cases (parse_hop_line g l target)) [
  | inl e ↦ rw (read_hops, e) (read_hops-reply g target ls m n k)
  | inr (h, e) ↦
      rw (read_hops, e)
        (read_hops-reply g target ls (keep_best h m) n
          (keep_best-reply h m n (silent_line g l target h e) k))
]

-- Whatever lines come before and after it, a line that shows a reply of a hop has the hop shown with
-- a reply: no silent reading takes its place.
pub read_hops_keep_reply :
    (g : GoLib) (target l : Text) (before later : List Text) (m : Map ℕ HopInfo) (h : HopInfo)
    → parse_hop_line g l target ≡ some h
    → is_timeout h ≡ false
    → has_reply h.hop (read_hops g target (before ++ l ∷ later) m) ≡ true
unfolding read_hops
read_hops_keep_reply g target l [] later m h e t =
    rw (read_hops, e)
      (read_hops-reply g target later (keep_best h m) h.hop (keep_best-replies h m t))
read_hops_keep_reply g target l (b ∷ before) later m h e t =
    elim (Option-cases (parse_hop_line g b target)) [
      | inl n ↦ rw (read_hops, n) (read_hops_keep_reply g target l before later m h e t)
      | inr (k, f) ↦
          rw (read_hops, f) (read_hops_keep_reply g target l before later (keep_best k m) h e t)
    ]
