-- ===== src/Netdiag/Parsers.antt =====
-- internal/netdiag/parser.go: the zone of an address and the lines of a trace. A decimal number is
-- in millionths of its unit; the round-trip time of a hop is in microseconds.
use pantau.Common.{
  ℕ, ◌/◌, Bool, false, not, ◌&&◌, ◌||◌, Option, none, some, List, [], ◌∷◌, ltb, ◌==◌, if◌then◌else◌,
}
use mathlib.Core.List.{reverse}
use pantau.Common.Text.{Text, codes, teq, equal_fold, has_prefix, contains, to_lower, trim_space}
use pantau.Common.Int.{ℤ, pos}
use pantau.Common.Numerals.{digits_value}
use pantau.Netdiag.{HopInfo}

-- What the parsers call of Go's packages regexp, strconv, net and url: the groups of the first match of
-- each regular expression (a group that took no part is empty), ParseFloat, the addresses that
-- ParseIP accepts, with whether a private block contains them, and the scheme, port and request URI of
-- an URL.
pub record GoLib : Type 0 where
  pub tracepath_hop : Text → Option (Text × Text × Text × Text)
  pub traceroute_hop : Text → Option (Text × Text × Text × Text)
  pub ping_stats : Text → Option (Text × Text × Text)
  pub ping_rtt : Text → Option (Text × Text × Text)
  pub route_dev : Text → Option Text
  pub route_via : Text → Option Text
  pub route_mtu : Text → Option Text
  pub find_ips : Text → List Text
  pub parse_float : Text → Option ℕ
  pub parse_ip : Text → Option Bool
  pub parse_url : Text → Option (Text × Text × Text)

-- the value, or 0 with the error dropped
abbrev pub or_zero : Option ℕ → ℕ
or_zero none = 0
or_zero (some n) = n

abbrev pub int_or_zero : Option ℤ → ℤ
int_or_zero none = pos 0
int_or_zero (some n) = n

-- IsPrivateIP of ParseIP
abbrev pub is_private : GoLib → Text → Bool
is_private g ip = elim (g.parse_ip ip) [ none ↦ false | some b ↦ b ]

trim_parens : Text → Text
trim_parens [] = []
trim_parens (c ∷ s) = let rest = trim_parens s in if c == b'(' || c == b')' then rest else c ∷ s

-- ClassifyIPZone
unfoldable pub classify_zone : GoLib → Text → Text → Text
unfolding trim_parens
classify_zone g ip target =
    let clean = reverse (trim_parens (reverse (trim_parens ip))) in
    if teq ip [] || teq ip (codes "*") || equal_fold ip (codes "no reply")
    then codes "timeout"
    else if not (teq target []) && (teq clean target || equal_fold clean target)
    then codes "destination"
    else if is_private g clean
    then codes "private"
    else codes "transit"

abbrev pub silent_hop : ℕ → HopInfo
silent_hop n = record {
  hop = n;
  host = codes "* * *";
  ip = [];
  rtt = 0;
  zone = codes "timeout";
  status = codes "timeout";
}

-- a hop that replies, with its time in millionths of a millisecond
abbrev replying_hop : ℕ → Text → Text → ℕ → Text → HopInfo
replying_hop n host ip rtt zone = record {
  hop = n;
  host = host;
  ip = ip;
  rtt = rtt / 1000;
  zone = zone;
  status = if ltb 100000000 rtt then codes "warning" else codes "ok";
}

-- a line of tracepath: number, host, time, rest
unfoldable pub tracepath_line : GoLib → Text → Text × Text × Text × Text → Option HopInfo
unfolding classify_zone
tracepath_line g target m =
    let n = or_zero (digits_value m.0) in
    let zone =
      if contains (to_lower m.3) (codes "reached")
      then codes "destination"
      else classify_zone g m.1 target in
    if ltb n 1
    then none
    else if teq m.1 (codes "no") || equal_fold m.1 (codes "no reply") || teq m.1 (codes "*")
    then some (silent_hop n)
    else some (replying_hop n m.1 m.1 (or_zero (g.parse_float m.2)) zone)

-- a line of traceroute: number, host, address in parentheses, time
unfoldable pub traceroute_line : GoLib → Text → Text × Text × Text × Text → Option HopInfo
unfolding classify_zone
traceroute_line g target m =
    let n = or_zero (digits_value m.0) in
    let ip = if teq m.2 [] then m.1 else m.2 in
    if ltb n 1
    then none
    else if teq m.1 (codes "*") || equal_fold m.1 (codes "no reply")
    then some (silent_hop n)
    else some (replying_hop n m.1 ip (or_zero (g.parse_float m.3)) (classify_zone g ip target))

-- ParseTracepathOrTracerouteLine
unfoldable pub parse_hop_line : GoLib → Text → Text → Option HopInfo
unfolding tracepath_line traceroute_line
parse_hop_line g line target =
    let trimmed = trim_space line in
    if teq trimmed []
      || has_prefix trimmed (codes "traceroute to")
      || has_prefix trimmed (codes "Resume:")
      || has_prefix trimmed (codes "Too many hops")
    then none
    else elim (g.tracepath_hop line) [
      | some m ↦ tracepath_line g target m
      | none ↦ elim (g.traceroute_hop line) [ some m ↦ traceroute_line g target m | none ↦ none ]
    ]
