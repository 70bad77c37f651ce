-- ===== src/Terminal/Keys.antt =====
-- internal/web/handlers_native_terminal.go: what the commands for the short-lived keys do to the lines
-- of a host's authorized_keys. Times are Unix seconds. The commands are those of a POSIX shell and awk,
-- whose reading of a line is written out.
pub mod Admin
use pantau.Common.{
  ℕ, suc, ◌+◌, Bool, true, false, not, ◌&&◌, ◌||◌, Option, none, some, List, [], ◌∷◌, ◌++◌, ltb,
  leb, ◌==◌, if◌then◌else◌, keep, drop, length,
}
use pantau.Common.Text.{Text, codes, teq, has_prefix, contains, trim_space, fields}
use pantau.Common.Numerals.{itoa, digits_value}

abbrev pub key_prefix : Text
key_prefix = codes "pantau-ephemeral-"

-- fmt.Sprintf("pantau-ephemeral-%s-%d", id, expiry)
unfoldable pub key_comment : Text → ℕ → Text
key_comment id expiry = key_prefix ++ id ++ codes "-" ++ itoa expiry

-- the line of a public key, of which `pub_bytes` is MarshalAuthorizedKey
unfoldable pub public_line : Text → Text → ℕ → Text
unfolding key_comment
public_line pub_bytes id expiry = trim_space pub_bytes ++ codes " " ++ key_comment id expiry

abbrev is_hex : ℕ → Bool
is_hex c = leb b'0' c && leb c b'9' || leb b'a' c && leb c b'f' || leb b'A' c && leb c b'F'

-- what follows hexadecimal digits and a dash
unfoldable pub after_hex : Text → Option Text
after_hex [] = none
after_hex (c ∷ s) =
    let rest = after_hex s in if c == b'-' then some s else if is_hex c then rest else none

abbrev starts_hex : Text → Bool
starts_hex [] = false
starts_hex (c ∷ s) = is_hex c

-- /^pantau-ephemeral-[0-9a-fA-F]+-[0-9]+$/, and the number at its end
unfoldable pub tag_time : Text → Option ℕ
unfolding after_hex
tag_time field =
    let rest = drop (length key_prefix) field in
    if has_prefix field key_prefix && starts_hex rest
    then elim (after_hex rest) [ none ↦ none | some digits ↦ digits_value digits ]
    else none

-- the first field that is a tag
unfoldable pub first_tag : List Text → Option ℕ
unfolding tag_time
first_tag [] = none
first_tag (f ∷ fs) =
    let rest = first_tag fs in elim (tag_time f) [ none ↦ rest | some ts ↦ some ts ]

-- whether the sweep prints a line: it is no key of ours, or one that expired at most 600 seconds ago
unfoldable pub survives : ℕ → Text → Bool
unfolding first_tag
survives now line = elim (first_tag (fields line)) [ none ↦ true | some ts ↦ ltb now (ts + 600) ]

-- sweepExpiredKeysOnHost; `now` is 0 where the host has no date
unfoldable pub sweep_expired_keys : ℕ → List Text → List Text
unfolding survives
sweep_expired_keys now lines = keep (survives now) lines

-- cleanupEphemeralKeyByID
unfoldable pub cleanup_key : Text → List Text → List Text
cleanup_key id lines =
    let clean = trim_space id in
    if teq clean []
    then lines
    else keep (λ l. not (contains l (key_prefix ++ clean ++ codes "-"))) lines

-- injectEphemeralKey, where the host's commands succeed
unfoldable pub inject_key : ℕ → Text → List Text → List Text
unfolding sweep_expired_keys
inject_key now line lines = sweep_expired_keys now lines ++ trim_space line ∷ []
