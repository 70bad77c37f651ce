-- ===== src/Terminal.antt =====
-- internal/web/handlers_native_terminal.go: the texts of the native terminal, that is the clause that
-- changes into a directory, the display and file names, templates, and the launcher script.
pub mod Bash
pub mod Shells
pub mod Names
pub mod Tickets
pub mod Launch
pub mod Keys
mod Examples
use pantau.Common.{
  ℕ, zero, suc, ◌-◌, Bool, true, false, not, ◌&&◌, ◌||◌, Option, none, some, List, [], ◌∷◌, ◌++◌,
  leb, ◌==◌, if◌then◌else◌, keep, some_of, length,
}
use mathlib.Core.List.{reverse}
use pantau.Common.Text.{
  Text, codes, teq, has_prefix, trim_prefix, contains, trim_space, fields, join,
}
use pantau.Common.Numerals.{itoa}
use pantau.Shell.{escape_quotes}

-- strings.ReplaceAll of a byte by nothing
abbrev pub without : ℕ → Text → Text
without c s = keep (λ b. not (b == c)) s

-- cleanInitialDir
unfoldable pub clean_initial_dir : Text → Text
clean_initial_dir dir = without 0 (without 13 (without 10 (trim_space dir)))

abbrev pub shells : Text
shells = codes " 2>/dev/null || true && exec bash -l || exec sh -l"

-- buildRemoteCdClause
unfoldable pub build_remote_cd_clause : Text → Text
unfolding clean_initial_dir
build_remote_cd_clause dir =
    let cleaned = clean_initial_dir dir in
    if teq cleaned []
    then []
    else if teq cleaned (codes "~")
    then codes "cd ~" ++ shells
    else if has_prefix cleaned (codes "~/")
    then codes "cd ~/'" ++ escape_quotes (trim_prefix cleaned (codes "~/")) ++ codes "'" ++ shells
    else codes "cd '" ++ escape_quotes cleaned ++ codes "'" ++ shells

-- the bytes that sanitizeFilename writes as they are
abbrev pub is_name_byte : ℕ → Bool
is_name_byte c =
    leb b'a' c && leb c b'z'
    || leb b'A' c && leb c b'Z'
    || leb b'0' c && leb c b'9'
    || c == b'-'
    || c == b'_'
    || c == b'.'

abbrev pub or_host : Text → Text
or_host [] = codes "host"
or_host (c ∷ s) = c ∷ s

-- sanitizeDisplayName
unfoldable pub sanitize_display_name : Text → Text
sanitize_display_name name = or_host (trim_space (keep (λ c. is_name_byte c || c == 32) name))

-- the bytes that strings.Trim takes away
abbrev pub is_trimmed : ℕ → Bool
is_trimmed c = c == b'.' || c == b'_' || c == b'-' || c == 32

unfoldable pub trim_left_name : Text → Text
trim_left_name [] = []
trim_left_name (c ∷ s) = let rest = trim_left_name s in if is_trimmed c then rest else c ∷ s

unfoldable pub trim_name : Text → Text
unfolding trim_left_name
trim_name s = reverse (trim_left_name (reverse (trim_left_name s)))

-- the loop of sanitizeFilename
unfoldable pub name_bytes : Text → Text
name_bytes [] = []
name_bytes (c ∷ s) =
    let rest = name_bytes s in
    if is_name_byte c then c ∷ rest else if c == 32 then b'_' ∷ rest else rest

-- sanitizeFilename
unfoldable pub sanitize_filename : Text → Text
unfolding name_bytes trim_name
sanitize_filename name = or_host (trim_name (name_bytes name))

pub data TemplateError : Type 0 where
  empty_template no_placeholder metacharacter not_found : TemplateError

abbrev dangerous : List Text
dangerous =
    codes ";"
    ∷ codes "&&"
    ∷ codes "||"
    ∷ codes "`"
    ∷ codes "$("
    ∷ codes "|"
    ∷ codes "\n"
    ∷ codes "\r"
    ∷ []

-- exec.LookPath of the first word
abbrev found_first : (Text → Bool) → List Text → Bool
found_first look_path [] = false
found_first look_path (w ∷ ws) = look_path w

-- validateTerminalTemplate; a template without a word cannot occur once it is trimmed and not empty
unfoldable pub validate_template : (Text → Bool) → Text → Option TemplateError
validate_template look_path template =
    let trimmed = trim_space template in
    if teq trimmed []
    then some empty_template
    else if not (contains trimmed (codes "%cmd%"))
    then some no_placeholder
    else if some_of (contains trimmed) dangerous
    then some metacharacter
    else if not (found_first look_path (fields trimmed))
    then some not_found
    else none

abbrev pub or_22 : ℕ → ℕ
or_22 port = if port == 0 then 22 else port

abbrev ssh_options : Text
ssh_options =
    codes
      " -o IdentitiesOnly=yes -o StrictHostKeyChecking=accept-new -o HostKeyAlgorithms=+ssh-rsa,ssh-dss -o PubkeyAcceptedKeyTypes=+ssh-rsa -p "

-- the part of an ssh command for the directory
unfoldable pub remote_cmd : Text → Text
remote_cmd clause = if teq clause [] then [] else codes " -t \"" ++ clause ++ codes "\""

-- ssh -i KEY … -p PORT USER@HOST REMOTE
unfoldable pub ssh_line : Text → ℕ → Text → Text → Text → Text
unfolding remote_cmd
ssh_line key port user host clause =
    codes "ssh -i "
    ++ key
    ++ ssh_options
    ++ itoa port
    ++ codes " "
    ++ user
    ++ codes "@"
    ++ host
    ++ remote_cmd clause

pub record NativeTicket : Type 0 where
  pub token : Text
  pub host_id : ℕ
  pub host_name : Text
  pub host_address : Text
  pub host_port : ℕ
  pub host_user : Text
  pub initial_dir : Text
  pub private_key : Text
  pub expires_at : ℕ

abbrev nl : Text
nl = 10 ∷ []

-- lines, each with its newline
abbrev lines_of : List Text → Text
lines_of [] = []
lines_of (l ∷ ls) = l ++ 10 ∷ lines_of ls

-- the end of the script
unfoldable pub script_end : Bool → Text
script_end true = lines_of (
    codes "if [ -c /dev/tty ]; then"
    ∷ codes "    exec $SHELL < /dev/tty"
    ∷ codes "else"
    ∷ codes "    exec $SHELL"
    ∷ codes "fi"
    ∷ [])
script_end false = lines_of (
    codes "if [ $SSH_EXIT -ne 0 ]; then"
    ∷ codes "    if [ -c /dev/tty ]; then"
    ∷ codes "        exec \"${SHELL:-bash}\" < /dev/tty"
    ∷ codes "    else"
    ∷ codes "        exec \"${SHELL:-bash}\""
    ∷ codes "    fi"
    ∷ codes "fi"
    ∷ [])

-- generateUnixScript
unfoldable pub generate_unix_script : NativeTicket → Bool → Text
unfolding sanitize_display_name build_remote_cd_clause ssh_line script_end
generate_unix_script t is_mac =
    let ssh =
      ssh_line (codes "\"$KEYFILE\"") (or_22 t.host_port) t.host_user t.host_address
        (build_remote_cd_clause t.initial_dir) in
    lines_of (
      codes "#!/usr/bin/env bash"
      ∷ codes "set -e"
      ∷ []
      ∷ codes "KEYFILE=\"$(mktemp -t pantau_key.XXXXXX)\""
      ∷ codes "chmod 600 \"$KEYFILE\""
      ∷ codes
          "trap 'rm -f \"$KEYFILE\"; if [ -f \"$0\" ] && [ \"$0\" != \"bash\" ] && [ \"$0\" != \"sh\" ] && [ \"$0\" != \"-bash\" ] && [ \"$0\" != \"-sh\" ]; then rm -f \"$0\"; fi' EXIT INT TERM"
      ∷ []
      ∷ codes "cat << 'EOF' > \"$KEYFILE\""
      ∷ trim_space t.private_key
      ∷ codes "EOF"
      ∷ []
      ∷ (codes "echo \"[Pantau] Connecting to "
          ++ sanitize_display_name t.host_name
          ++ codes " ("
          ++ t.host_address
          ++ codes ")...\"")
      ∷ codes "set +e"
      ∷ codes "if [ -t 0 ]; then"
      ∷ (codes "    " ++ ssh)
      ∷ codes "elif [ -c /dev/tty ]; then"
      ∷ (codes "    " ++ ssh ++ codes " < /dev/tty")
      ∷ codes "else"
      ∷ (codes "    " ++ ssh)
      ∷ codes "fi"
      ∷ codes "SSH_EXIT=$?"
      ∷ []
      ∷ codes "if [ $SSH_EXIT -ne 0 ]; then"
      ∷ codes "    echo \"\""
      ∷ codes "    echo \"[Pantau] Sesi SSH terputus atau gagal (exit code: $SSH_EXIT).\""
      ∷ codes "    echo \"Menjaga terminal tetap terbuka untuk diagnostik...\""
      ∷ codes "fi"
      ∷ []
      ∷ [])
    ++ script_end is_mac
