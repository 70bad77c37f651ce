-- ===== src/Reclaim.antt =====
-- internal/storagetriage/storagetriage.go: which files a reclaim may truncate, and the commands of
-- ValidateReclaimRequest. Package path's Clean is written out on the segments of a path.
pub mod Safety
mod Examples
use mathlib.Core.List.{reverse}
use pantau.Common.{
  ℕ, zero, suc, Bool, true, false, not, ◌&&◌, ◌||◌, Option, none, some, List, [], ◌∷◌, ◌++◌, leb,
  ◌==◌, if◌then◌else◌, some_of,
}
use pantau.Common.Text.{
  Text, codes, teq, has_prefix, has_suffix, contains, to_lower, trim_space, split, join,
}
use pantau.Shell.{shell_quote}

abbrev pub slash : Text
slash = codes "/"

abbrev pub tail : List Text → List Text
tail [] = []
tail (s ∷ rest) = rest

-- the segments of an absolute path, the last on top: ".." at the root stays there
unfoldable pub absolute_segments : List Text → List Text → List Text
absolute_segments stack [] = stack
absolute_segments stack (seg ∷ segs) =
    let same = absolute_segments stack segs in
    let up = absolute_segments (tail stack) segs in
    let down = absolute_segments (seg ∷ stack) segs in
    if teq seg [] || teq seg (codes ".") then same else if teq seg (codes "..") then up else down

-- the segments of a relative path: a ".." that nothing precedes is kept
unfoldable pub push_up : List Text → List Text
push_up [] = codes ".." ∷ []
push_up (s ∷ stack) = if teq s (codes "..") then codes ".." ∷ s ∷ stack else stack

unfoldable pub relative_segments : List Text → List Text → List Text
unfolding push_up
relative_segments stack [] = stack
relative_segments stack (seg ∷ segs) =
    let same = relative_segments stack segs in
    let up = relative_segments (push_up stack) segs in
    let down = relative_segments (seg ∷ stack) segs in
    if teq seg [] || teq seg (codes ".") then same else if teq seg (codes "..") then up else down

unfoldable pub or_dot : Text → Text
or_dot [] = codes "."
or_dot (c ∷ s) = c ∷ s

-- path.Clean
unfoldable pub clean_path : Text → Text
unfolding absolute_segments relative_segments or_dot
clean_path p =
    if has_prefix p slash
    then b'/' ∷ join slash (reverse (absolute_segments [] (split b'/' p)))
    else or_dot (join slash (reverse (relative_segments [] (split b'/' p))))

abbrev database_markers : List Text
database_markers =
    codes "galera.cache"
    ∷ codes "grastate.dat"
    ∷ codes "gvwstate.dat"
    ∷ codes "/mysql/"
    ∷ codes "/mariadb/"
    ∷ codes "/postgresql/"
    ∷ codes "/postgres/"
    ∷ codes "/redis/"
    ∷ codes "/mongodb/"
    ∷ codes "/docker/volumes/"
    ∷ codes "/containerd/"
    ∷ codes "ibdata"
    ∷ []

abbrev database_exts : List Text
database_exts =
    codes ".ibd"
    ∷ codes ".frm"
    ∷ codes ".myd"
    ∷ codes ".myi"
    ∷ codes ".db"
    ∷ codes ".sqlite"
    ∷ codes ".sqlite3"
    ∷ codes ".rdb"
    ∷ codes ".aof"
    ∷ codes ".wal"
    ∷ codes ".mdf"
    ∷ codes ".ldf"
    ∷ codes ".qcow2"
    ∷ codes ".vmdk"
    ∷ codes ".img"
    ∷ codes ".raw"
    ∷ codes ".dbf"
    ∷ codes ".wt"
    ∷ codes ".bson"
    ∷ []

unfoldable pub is_database_or_protected_file : Text → Bool
unfolding clean_path
is_database_or_protected_file file_path =
    let lower = to_lower (clean_path (trim_space file_path)) in
    some_of (contains lower) database_markers || some_of (has_suffix lower) database_exts

abbrev log_exts : List Text
log_exts = codes ".log" ∷ codes ".txt" ∷ codes ".out" ∷ codes ".err" ∷ codes ".dump" ∷ []

abbrev log_dirs : List Text
log_dirs = codes "/var/log/" ∷ codes "/tmp/" ∷ codes "/var/tmp/" ∷ []

unfoldable pub is_log_or_disposable_file : Text → Bool
unfolding is_database_or_protected_file
is_log_or_disposable_file file_path =
    let cleaned = clean_path (trim_space file_path) in
    let lower = to_lower cleaned in
    if is_database_or_protected_file cleaned
    then false
    else some_of (has_suffix lower) log_exts || some_of (has_prefix lower) log_dirs

abbrev pub system_dirs : List Text
system_dirs =
    codes "/etc"
    ∷ codes "/bin"
    ∷ codes "/sbin"
    ∷ codes "/usr"
    ∷ codes "/boot"
    ∷ codes "/dev"
    ∷ codes "/proc"
    ∷ codes "/sys"
    ∷ []

-- at a directory, or below it
abbrev pub is_within : Text → Text → Bool
is_within lower dir = has_prefix lower (dir ++ slash) || teq lower dir

unfoldable pub is_system_path : Text → Bool
is_system_path lower = teq lower slash || some_of (is_within lower) system_dirs

-- `errors.New` and `fmt.Errorf` as constructors
pub data ReclaimError : Type 0 where
  target_required not_absolute unit_required : ReclaimError
  protected_territory database_file not_disposable invalid_unit unsupported : Text → ReclaimError

pub data Reclaim : Type 0 where
  command : Text → Reclaim
  refused : ReclaimError → Reclaim

unfoldable pub validate_truncate : Text → Reclaim
unfolding is_log_or_disposable_file is_system_path
validate_truncate target_path =
    let target = clean_path (trim_space target_path) in
    if teq target [] || teq target (codes ".")
    then refused target_required
    else if not (has_prefix target slash)
    then refused not_absolute
    else if is_system_path (to_lower target)
    then refused (protected_territory target)
    else if is_database_or_protected_file target
    then refused (database_file target)
    else if not (is_log_or_disposable_file target)
    then refused (not_disposable target)
    else command (codes "truncate -s 0 " ++ shell_quote target)

abbrev between : ℕ → ℕ → ℕ → Bool
between lo hi c = leb lo c && leb c hi

-- [a-zA-Z0-9_.-]
abbrev pub is_unit_byte : ℕ → Bool
is_unit_byte c =
    between b'a' b'z' c
    || between b'A' b'Z' c
    || between b'0' b'9' c
    || c == b'_'
    || c == b'.'
    || c == b'-'

-- safeUnitRegex on a text that is not empty
unfoldable pub is_safe_unit : Text → Bool
is_safe_unit unit = not (some_of (λ c. not (is_unit_byte c)) unit)

unfoldable pub validate_reload : Text → Reclaim
unfolding is_safe_unit
validate_reload target_path =
    let unit = trim_space target_path in
    if teq unit []
    then refused unit_required
    else if not (is_safe_unit unit)
    then refused (invalid_unit unit)
    else command (codes "systemctl reload " ++ shell_quote unit)

unfoldable pub validate_reclaim_request : Text → Text → Reclaim
unfolding validate_truncate validate_reload
validate_reclaim_request action_key target_path =
    if teq action_key (codes "journal")
    then command (codes "journalctl --vacuum-time=2d --vacuum-size=50M")
    else if teq action_key (codes "pkgcache")
    then command (
        codes
          "if command -v apt-get >/dev/null 2>&1; then apt-get clean; elif command -v dnf >/dev/null 2>&1; then dnf clean all; elif command -v yum >/dev/null 2>&1; then yum clean all && rm -rf /var/cache/yum/*; elif command -v pacman >/dev/null 2>&1; then pacman -Scc --noconfirm; elif command -v apk >/dev/null 2>&1; then apk cache clean; fi")
    else if teq action_key (codes "rotated_logs")
    then command (
        codes
          "find /var/log -type f \\( -name \"*.gz\" -o -name \"*.[0-9].gz\" -o -name \"*.1\" \\) -delete")
    else if teq action_key (codes "coredump")
    then command (codes "rm -f /var/lib/systemd/coredump/*")
    else if teq action_key (codes "docker")
    then command (codes "docker system prune -af")
    else if teq action_key (codes "truncate")
    then validate_truncate target_path
    else if teq action_key (codes "reload_service")
    then validate_reload target_path
    else refused (unsupported action_key)

-- fullCmd of ExecuteReclaim
unfoldable pub full_command : Text → Text → Text
full_command sudo_password cmd =
    if teq (trim_space sudo_password) []
    then codes "if [ \"$(id -u)\" != \"0\" ] && sudo -n true 2>/dev/null; then\n    sudo -n sh -c "
      ++ shell_quote cmd
      ++ codes " 2>&1\nelse\n    sh -c "
      ++ shell_quote cmd
      ++ codes " 2>&1\nfi"
    else codes "printf '%s\\n' "
      ++ shell_quote sudo_password
      ++ codes " | sudo -S -k -p '' sh -c "
      ++ shell_quote cmd
      ++ codes " 2>&1"
