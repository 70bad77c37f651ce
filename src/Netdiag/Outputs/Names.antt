-- ===== src/Netdiag/Outputs/Names.antt =====
-- The addresses that a name resolves to.
use pantau.Common.{
  ℕ, suc, ◌≡◌, not, ◌&&◌, List, [], ◌∷◌, arith, some_of, if◌then◌else◌, Bool-cases, inl, inr, sym,
}
use pantau.Common.Text.{Text, teq, teq_refl, teq_iff}
use pantau.Netdiag.Parsers.{GoLib}
use pantau.Netdiag.Outputs.{is_local_listener, unique_ips, parse_dns}

-- How often an address is listed.
abbrev pub occurrences : Text → List Text → ℕ
occurrences ip [] = 0
occurrences ip (x ∷ xs) = let rest = occurrences ip xs in if teq ip x then suc rest else rest

occurrences-unique_ips :
    (ip : Text) (seen ips : List Text)
    → occurrences ip (unique_ips seen ips) ≡ (
        if not (is_local_listener ip) && not (some_of (teq ip) seen) && some_of (teq ip) ips
        then 1
        else 0)
unfolding unique_ips
occurrences-unique_ips ip seen [] = ground arith
occurrences-unique_ips ip seen (x ∷ ips) = elim (Bool-cases (teq ip x)) [
  | inl same ↦ rw (sym ((teq_iff ip x).0 same)) (
      ground (
        arith,
        teq_refl ip,
        occurrences-unique_ips ip seen ips,
        occurrences-unique_ips ip (ip ∷ seen) ips,
      ))
  | inr other ↦
      ground
        (arith, other, occurrences-unique_ips ip seen ips, occurrences-unique_ips ip (x ∷ seen) ips)
]

-- For every output, each address that stands in it is listed exactly once, but for 0.0.0.0 and the
-- local listener 127.0.0.53, which are not listed; no other address is.
pub occurrences-parse_dns :
    (g : GoLib) (out target ip : Text)
    → occurrences ip (parse_dns g out target).resolved_ips
      ≡ (if not (is_local_listener ip) && some_of (teq ip) (g.find_ips out) then 1 else 0)
unfolding parse_dns
occurrences-parse_dns g out target ip =
    ground (arith, occurrences-unique_ips ip [] (g.find_ips out))
