-- ===== src/Netdiag/Request.antt =====
-- internal/netdiag/triage.go and service.go: what a triage is asked, its defaults, and the port and
-- path of its application endpoint. A number of a request that is 0 stands for none, as all that are
-- not positive do; decimal numbers are in millionths.
use pantau.Common.{
  ℕ, Bool, true, not, ◌&&◌, ◌||◌, Option, none, some, [], ◌∷◌, ltb, leb, ◌==◌, if◌then◌else◌,
  length, drop,
}
use pantau.Common.Text.{Text, codes, teq, has_prefix, trim_space}
use pantau.Common.Int.{ℤ, pos, pos_part}
use pantau.Common.Numerals.{atoi}
use pantau.Netdiag.Parsers.{GoLib, int_or_zero}

pub record TriageRequest : Type 0 where
  pub source_host_id : ℕ
  pub preset_id : ℕ
  pub target_address : Text
  pub target_name : Text
  pub app_endpoint : Text
  pub baseline_mtu : ℕ
  pub max_latency : ℕ
  pub max_loss : ℕ
  pub db_port : ℕ

-- a row of the presets, or what replaces the fields of a request
pub record Preset : Type 0 where
  pub target : Text
  pub name : Text
  pub app_endpoint : Text
  pub baseline_mtu : ℕ
  pub max_latency : ℕ
  pub max_loss : ℕ
  pub db_port : ℕ

abbrev pub or_text : Text → Text → Text
or_text s t = if teq s [] then t else s

abbrev pub or_number : ℕ → ℕ → ℕ
or_number n m = if n == 0 then m else n

-- step 1 of ExecuteTriage, where the preset is found
unfoldable pub with_preset : Option Preset → TriageRequest → TriageRequest
with_preset none r = r
with_preset (some p) r =
    if ltb 0 r.preset_id
    then record r {
      target_address = or_text r.target_address p.target;
      target_name = or_text r.target_name p.name;
      app_endpoint = or_text r.app_endpoint p.app_endpoint;
      baseline_mtu = or_number r.baseline_mtu p.baseline_mtu;
      max_latency = or_number r.max_latency p.max_latency;
      max_loss = or_number r.max_loss p.max_loss;
      db_port = or_number r.db_port p.db_port;
    }
    else r

-- the settings of the host, an empty text where there is none
unfoldable pub with_settings : Text → Text → TriageRequest → TriageRequest
with_settings app db r = record r {
  app_endpoint = or_text r.app_endpoint app;
  db_port = or_number r.db_port (pos_part (int_or_zero (atoi db)));
}

-- the smart defaults
unfoldable pub with_defaults : TriageRequest → TriageRequest
with_defaults r =
    let address = trim_space r.target_address in
    record r {
      target_address = address;
      target_name = or_text r.target_name address;
      baseline_mtu = or_number r.baseline_mtu 1500;
      max_latency = or_number r.max_latency 80000000;
      max_loss = or_number r.max_loss 2000000;
    }

unfoldable pub resolve : Option Preset → Text → Text → TriageRequest → TriageRequest
unfolding with_preset with_settings with_defaults
resolve preset app db r = with_defaults (with_settings app db (with_preset preset r))

-- validTargetRegex
abbrev is_target_byte : ℕ → Bool
is_target_byte c =
    leb b'a' c && leb c b'z'
    || leb b'A' c && leb c b'Z'
    || leb b'0' c && leb c b'9'
    || c == b'_'
    || c == b'.'
    || c == b':'
    || c == b'-'

abbrev pub all_target_bytes : Text → Bool
all_target_bytes [] = true
all_target_bytes (c ∷ s) = is_target_byte c && all_target_bytes s

pub data TargetError : Type 0 where
  empty_target too_long invalid_characters : TargetError

-- ValidateTarget
unfoldable pub validate_target : Text → Option TargetError
validate_target target =
    let t = trim_space target in
    if teq t []
    then some empty_target
    else if ltb 255 (length t)
    then some too_long
    else if not (all_target_bytes t)
    then some invalid_characters
    else none

-- what stands before the first slash, and what after it
unfoldable pub cut_slash : Text → Text × Text
cut_slash [] = ([], [])
cut_slash (c ∷ s) = let rest = cut_slash s in if c == b'/' then ([], s) else (c ∷ rest.0, rest.1)

abbrev port_or : ℤ → Option ℤ → ℤ
port_or d none = d
port_or d (some p) = p

-- the application's port and path
unfoldable pub parse_endpoint : GoLib → Text → ℤ × Text
unfolding cut_slash
parse_endpoint g clean =
    let parts = cut_slash (drop 1 clean) in
    if has_prefix clean (codes "http://") || has_prefix clean (codes "https://")
    then elim (g.parse_url clean) [
      | none ↦ (pos 80, codes "/")
      | some (scheme, port, uri) ↦ (
        if not (teq port [])
            then port_or (pos 80) (atoi port)
            else if teq scheme (codes "https")
            then pos 443
            else pos 80,
        uri,
      )
    ]
    else if has_prefix clean (codes ":")
    then (
      port_or (pos 80) (atoi parts.0),
      if not (teq parts.1 []) then b'/' ∷ parts.1 else codes "/",
    )
    else if has_prefix clean (codes "/")
    then (pos 80, clean)
    else (pos 80, codes "/")

abbrev pub is_explicit : Text → Bool
is_explicit clean = not (teq clean []) && not (teq clean (codes "/"))
