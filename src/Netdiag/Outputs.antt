-- ===== src/Netdiag/Outputs.antt =====
-- internal/netdiag/parser.go: what the outputs of ping, port, name, route and curl commands say.
-- Summaries, which are texts made of the other fields, are left out. A decimal number is in millionths
-- of its unit, a time of curl in microseconds.
pub mod Names
use pantau.Common.{
  ℕ, Bool, false, not, ◌&&◌, ◌||◌, Option, none, some, List, [], ◌∷◌, ltb, leb, ◌==◌, if◌then◌else◌,
  length, some_of, get_or,
}
use mathlib.Core.List.{reverse}
use pantau.Common.Text.{Text, codes, teq, contains, to_lower, trim_space, split}
use pantau.Common.Int.{ℤ, pos, negsuc}
use pantau.Common.Numerals.{atoi, digits_value}
use pantau.Netdiag.Parsers.{GoLib, or_zero, int_or_zero, is_private}

pub data LayerStatus : Type 0 where
  healthy degraded down : LayerStatus

pub record PingStats : Type 0 where
  pub transmitted : ℕ
  pub received : ℕ
  pub loss : ℕ
  pub min : ℕ
  pub avg : ℕ
  pub max : ℕ
  pub status : LayerStatus

-- the status of ParsePingOutput
unfoldable pub ping_status : ℕ → ℕ → ℕ → LayerStatus
ping_status transmitted received loss =
    if ltb 0 transmitted && received == 0
    then down
    else if ltb 0 loss
    then degraded
    else if ltb 0 received
    then healthy
    else down

-- ParsePingOutput
unfoldable pub parse_ping : GoLib → Text → PingStats
unfolding ping_status
parse_ping g out =
    let counts : Text × Text × Text = elim (g.ping_stats out) [
      | none ↦ ([], [], [])
      | some m ↦ m
    ] in
    let rtts : Text × Text × Text = elim (g.ping_rtt out) [ none ↦ ([], [], []) | some m ↦ m ] in
    let float : Text → ℕ = λ s. if teq s [] then 0 else or_zero (g.parse_float s) in
    let sent = or_zero (digits_value counts.0) in
    let received = or_zero (digits_value counts.1) in
    let loss = float counts.2 in
    record {
      transmitted = sent;
      received = received;
      loss = loss;
      min = float rtts.0;
      avg = float rtts.1;
      max = float rtts.2;
      status = ping_status sent received loss;
    }

pub record PortStats : Type 0 where
  pub port : ℤ
  pub is_open : Bool
  pub status : LayerStatus

-- ParsePortOutput
unfoldable pub parse_port : Text → ℤ → PortStats
parse_port out port =
    let is_open = contains out (codes "PORT_OPEN") in
    record { port = port; is_open = is_open; status = if is_open then healthy else down }

pub record DnsStats : Type 0 where
  pub target : Text
  pub resolved_ips : List Text
  pub status : LayerStatus

abbrev pub is_local_listener : Text → Bool
is_local_listener ip = teq ip (codes "0.0.0.0") || teq ip (codes "127.0.0.53")

-- the loop of ParseDNSOutput, with the addresses seen before
unfoldable pub unique_ips : List Text → List Text → List Text
unique_ips seen [] = []
unique_ips seen (ip ∷ ips) =
    let same = unique_ips seen ips in
    let more = unique_ips (ip ∷ seen) ips in
    if is_local_listener ip then same else if some_of (teq ip) seen then same else ip ∷ more

-- ParseDNSOutput
unfoldable pub parse_dns : GoLib → Text → Text → DnsStats
unfolding unique_ips
parse_dns g out target =
    let ips = unique_ips [] (g.find_ips out) in
    record {
      target = target;
      resolved_ips = ips;
      status = if ltb 0 (length ips) then healthy else down;
    }

pub record RouteInfo : Type 0 where
  pub target_address : Text
  pub interface : Text
  pub gateway : Text
  pub mtu : ℕ
  pub is_private_route : Bool

-- strings.ReplaceAll of "\\\n" and of "\n" by a blank
unfoldable pub one_line : Text → Text
one_line [] = []
one_line (c ∷ []) = (if c == 10 then 32 else c) ∷ []
one_line (c ∷ d ∷ s) =
    let after_both = one_line s in
    let after_one = one_line (d ∷ s) in
    if c == b'\\' && d == 10 then 32 ∷ after_both else (if c == 10 then 32 else c) ∷ after_one

abbrev or_empty : Option Text → Text
or_empty none = []
or_empty (some s) = s

-- ParseRouteGetOutput
unfoldable pub parse_route : GoLib → Text → Text → RouteInfo
unfolding one_line
parse_route g out target =
    let clean = one_line out in
    let mtu = or_zero (digits_value (or_empty (g.route_mtu clean))) in
    record {
      target_address = target;
      interface = or_empty (g.route_dev clean);
      gateway = or_empty (g.route_via clean);
      mtu = if ltb 0 mtu then mtu else 1500;
      is_private_route = is_private g target;
    }

pub record L7ProbeStats : Type 0 where
  pub http_code : ℤ
  pub dns : ℕ
  pub connect : ℕ
  pub ttfb : ℕ
  pub total : ℕ
  pub l7_status : LayerStatus

abbrev pub no_l7 : L7ProbeStats
no_l7 = record { http_code = pos 0; dns = 0; connect = 0; ttfb = 0; total = 0; l7_status = down }

-- a code of at least `n`
abbrev pub from : ℕ → ℤ → Bool
from n (pos m) = leb n m
from n (negsuc m) = false

-- the status of a code and a time to the first byte
unfoldable pub l7_status_of : ℤ → ℕ → LayerStatus
l7_status_of code ttfb =
    if from 200 code && not (from 400 code)
    then (if ltb 2500000 ttfb then degraded else healthy)
    else if from 400 code && not (from 500 code)
    then degraded
    else if from 500 code
    then degraded
    else down

-- the last line with a bar, of lines in reverse order; empty if there is none
unfoldable pub last_with_bar : List Text → Text
last_with_bar [] = []
last_with_bar (l ∷ lines) =
    let rest = last_with_bar lines in
    if contains (trim_space l) (codes "|") then trim_space l else rest

-- ParseCurlL7Output
unfoldable pub parse_curl : GoLib → Text → L7ProbeStats
unfolding l7_status_of last_with_bar
parse_curl g out =
    let line = last_with_bar (reverse (split 10 (trim_space out))) in
    let parts = split b'|' line in
    let seconds : ℕ → ℕ = λ i. or_zero (g.parse_float (trim_space (get_or parts i []))) in
    let code = int_or_zero (atoi (trim_space (get_or parts 0 []))) in
    if teq line []
    then no_l7
    else if leb 5 (length parts)
    then record {
      http_code = code;
      dns = seconds 1;
      connect = seconds 2;
      ttfb = seconds 3;
      total = seconds 4;
      l7_status = l7_status_of code (seconds 3);
    }
    else no_l7

-- ParseMTUPingSuccess
unfoldable pub parse_mtu_ping : GoLib → Text → Bool
parse_mtu_ping g out =
    let low = to_lower out in
    if contains low (codes "frag needed")
      || contains low (codes "too long")
      || contains low (codes "oversized")
      || contains low (codes "100% packet loss")
      || contains low (codes "100.0% packet loss")
    then false
    else elim (g.ping_stats out) [ none ↦ false | some m ↦ ltb 0 (or_zero (digits_value m.1)) ]
