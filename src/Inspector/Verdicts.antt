-- ===== src/Inspector/Verdicts.antt =====
-- internal/inspector/inspector.go: what the checks of evaluateRule share.
use pantau.Common.{ℕ, Option, none, some, List, [], if◌then◌else◌, length, get_or, drop}
use pantau.Common.Text.{Text, codes, has_suffix, join}
use pantau.Common.Int.{pos_part}
use pantau.Common.Numerals.{atoi}
use mathlib.Core.List.{reverse}

-- The host that a runner reaches, the clock in seconds, and the float formats of packages fmt and
-- strconv: `%.1f` of an age given in seconds, RFC 3339, and a number of hours read as seconds.
pub record Runner : Type 0 where
  pub exec : Text → Text × ℕ
  pub now : ℕ
  pub show_hours : ℕ → Text
  pub show_time : ℕ → Text
  pub read_hours : Text → Option ℕ

pub record Verdict : Type 0 where
  pub current : Text
  pub status : Text
  pub details : Text
  pub root_cause : Text

abbrev pub concat : List Text → Text
concat parts = join [] parts

abbrev pub ok : Text
ok = codes "ok"

abbrev pub drift : Text
drift = codes "drift"

unfoldable pub passes : Text → Verdict
passes current = record { current = current; status = ok; details = []; root_cause = [] }

unfoldable pub fails : Text → Text → Verdict
fails current cause = record { current = current; status = drift; details = []; root_cause = cause }

abbrev pub part : List Text → ℕ → Text
part parts i = get_or parts i []

-- the numerals of df's columns; none is negative
abbrev pub kilobytes : Text → ℕ
kilobytes s = elim (atoi s) [ none ↦ 0 | some n ↦ pos_part n ]

-- strings.TrimSuffix(s, t)
unfoldable pub trim_suffix : Text → Text → Text
trim_suffix s t = if has_suffix s t then reverse (drop (length t) (reverse s)) else s
