-- ===== src/Terminal/Launch.antt =====
-- internal/web/handlers_native_terminal.go: which terminal of the server's own machine is started, and
-- with which arguments. What the machine has is a parameter.
use pantau.Common.{
  ℕ, zero, suc, ◌-◌, Bool, not, ◌||◌, Option, none, some, List, [], ◌∷◌, ◌++◌, ◌==◌, if◌then◌else◌,
  length,
}
use mathlib.Core.List.{reverse}
use pantau.Common.Text.{Text, codes, teq, contains, has_prefix, to_lower}
use pantau.Terminal.{build_remote_cd_clause, ssh_line}

-- exec.LookPath, os.Getenv, and os.Stat with IsDir
pub record Machine : Type 0 where
  pub look_path : Text → Option Text
  pub getenv : Text → Text
  pub is_dir : Text → Bool

-- the first of some programs that is found, with the name it goes by; otherwise the last resort
unfoldable pub first_found : Machine → List (Text × Text) → Text × Text → Text × Text
first_found m [] d = d
first_found m ((program, name) ∷ rest) d =
    let later = first_found m rest d in
    elim (m.look_path program) [ none ↦ later | some path ↦ (name, path) ]

unfoldable pub first_dir : Machine → List (Text × Text) → Text × Text → Text × Text
first_dir m [] d = d
first_dir m ((dir, name) ∷ rest) d =
    let later = first_dir m rest d in if m.is_dir dir then (name, dir) else later

abbrev named : List Text → List (Text × Text)
named [] = []
named (s ∷ ss) = (s, s) ∷ named ss

abbrev popular : List Text
popular =
    codes "x-terminal-emulator"
    ∷ codes "gnome-terminal"
    ∷ codes "konsole"
    ∷ codes "xfce4-terminal"
    ∷ codes "alacritty"
    ∷ codes "kitty"
    ∷ codes "wezterm"
    ∷ codes "terminator"
    ∷ codes "tilix"
    ∷ codes "foot"
    ∷ codes "xterm"
    ∷ []

-- detectDefaultTerminal
unfoldable pub detect_default_terminal : Machine → Text → Text × Text
unfolding first_found first_dir
detect_default_terminal m goos =
    let comspec = m.getenv (codes "COMSPEC") in
    let last = first_found m ((codes "cmd.exe", codes "cmd") ∷ []) (codes "cmd", codes "cmd.exe") in
    let term = m.getenv (codes "TERMINAL") in
    let found = first_found m (named popular) ([], []) in
    if teq goos (codes "windows")
    then first_found m
        ((codes "wt.exe", codes "windows-terminal")
          ∷ (codes "pwsh.exe", codes "powershell-core")
          ∷ (codes "powershell.exe", codes "powershell")
          ∷ [])
        (if not (teq comspec []) then (codes "cmd", comspec) else last)
    else if teq goos (codes "darwin")
    then first_dir m
        ((codes "/Applications/iTerm.app", codes "iterm2")
          ∷ (m.getenv (codes "HOME") ++ codes "/Applications/iTerm.app", codes "iterm2")
          ∷ (codes "/System/Applications/Utilities/Terminal.app", codes "apple-terminal")
          ∷ (codes "/Applications/Utilities/Terminal.app", codes "apple-terminal")
          ∷ [])
        (codes "apple-terminal", codes "Terminal")
    else if not (teq term [])
    then first_found m ((term, term) ∷ []) found
    else found

-- strings.ReplaceAll of a text that is not empty: `skip` bytes belong to the match before
unfoldable pub replace_from : Text → Text → ℕ → Text → Text
replace_from old new skip [] = []
replace_from old new (suc skip) (c ∷ s) = replace_from old new skip s
replace_from old new zero (c ∷ s) =
    let matched = replace_from old new (length old - 1) s in
    let more = replace_from old new zero s in
    if has_prefix (c ∷ s) old then new ++ matched else c ∷ more

-- filepath.Base of a path without a slash at its end
unfoldable pub base_from : Text → Text → Text
base_from acc [] = reverse acc
base_from acc (c ∷ s) =
    let cut = base_from [] s in let more = base_from (c ∷ acc) s in if c == b'/' then cut else more

-- the arguments of the process
unfoldable pub build_launch_command : Text → Text → Text → Text → Text → Text → ℕ → Text → List Text
unfolding ssh_line replace_from base_from
build_launch_command goos term_path template key_path user host port dir =
    let ssh =
      ssh_line (codes "\"" ++ key_path ++ codes "\"") port user host (build_remote_cd_clause dir) in
    let cmd = replace_from (codes "%cmd%") ssh 0 template in
    let low = to_lower term_path in
    let with_bash = ssh ++ codes "; exec bash" in
    let base = base_from [] term_path in
    let quoted = replace_from (codes "\"") (codes "\\\"") 0 ssh in
    let escaped = replace_from (codes ";") (codes "\\;") 0 ssh in
    if not (teq template [])
    then (if teq goos (codes "windows")
        then codes "cmd.exe" ∷ codes "/c" ∷ cmd ∷ []
        else codes "sh" ∷ codes "-c" ∷ (codes "exec " ++ cmd) ∷ [])
    else if teq goos (codes "windows")
    then (if contains low (codes "wt")
        then term_path ∷ codes "new-tab" ∷ codes "cmd.exe" ∷ codes "/k" ∷ escaped ∷ []
        else if contains low (codes "pwsh") || contains low (codes "powershell")
        then term_path ∷ codes "-NoExit" ∷ codes "-Command" ∷ ssh ∷ []
        else codes "cmd.exe"
          ∷ codes "/c"
          ∷ codes "start"
          ∷ (codes "Pantau - " ++ host)
          ∷ codes "cmd.exe"
          ∷ codes "/k"
          ∷ ssh
          ∷ [])
    else if teq goos (codes "darwin")
    then codes "osascript"
      ∷ codes "-e"
      ∷ (codes "tell application \"Terminal\" to do script \""
          ++ quoted
          ++ codes "; exec $SHELL\"\ntell application \"Terminal\" to activate")
      ∷ []
    else if teq base (codes "gnome-terminal")
    then term_path ∷ codes "--" ∷ codes "bash" ∷ codes "-c" ∷ with_bash ∷ []
    else if teq base (codes "kitty")
    then term_path ∷ codes "sh" ∷ codes "-c" ∷ (ssh ++ codes "; exec $SHELL") ∷ []
    else term_path ∷ codes "-e" ∷ codes "bash" ∷ codes "-c" ∷ with_bash ∷ []
