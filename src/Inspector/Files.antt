-- ===== src/Inspector/Files.antt =====
-- internal/inspector/inspector.go: the rules on mount points and backup files.
use pantau.Common.{
  ℕ, zero, suc, ◌+◌, ◌-◌, ◌*◌, ◌/◌, not, ◌&&◌, ◌||◌, none, some, List, [], ◌∷◌, leb, ◌==◌,
  if◌then◌else◌, length,
}
use pantau.Common.Text.{
  Text, codes, teq, has_prefix, has_suffix, trim_prefix, trim_space, split, fields,
}
use pantau.Common.Int.{ℤ, pos, negsuc, ltb_ℤ}
use pantau.Common.Numerals.{itoa, atoi}
use pantau.Store.{DesiredRule}
use pantau.Shell.{shell_quote}
use pantau.Inspector.Verdicts.{Runner, Verdict, concat, passes, fails, part, kilobytes, trim_suffix}

unfoldable pub parse_df_lines : List Text → ℕ × ℕ
parse_df_lines [] = (0, 0)
parse_df_lines (l ∷ lines) =
    let f = fields l in
    let rest = parse_df_lines lines in
    if leb 6 (length f) && (teq (part f 5) (codes "/") || has_suffix (part f 5) (codes "/"))
    then (kilobytes (part f 2) * 1024, kilobytes (part f 1) * 1024)
    else rest

-- used and total bytes
unfoldable pub parse_df : Text → ℕ × ℕ
unfolding parse_df_lines
parse_df output = parse_df_lines (split b'\n' output)

unfoldable pub disk_limit : Text → ℤ
unfolding trim_suffix
disk_limit expected = elim (atoi (trim_prefix (trim_suffix expected (codes "%")) (codes "<"))) [
  | none ↦ pos 85
  | some l ↦ l
]

show_int : ℤ → Text
show_int (pos n) = itoa n
show_int (negsuc n) = b'-' ∷ itoa (n + 1)

unfoldable pub evaluate_usage : Text → ℤ → ℕ → ℕ → Verdict
unfolding passes fails show_int
evaluate_usage target limit used zero =
    fails (codes "unknown") (codes "Could not parse mount point usage")
evaluate_usage target limit used (suc n) =
    let pct = used * 100 / suc n in
    let current = concat (itoa pct ∷ codes "%" ∷ []) in
    if ltb_ℤ (pos pct) limit
    then passes current
    else fails current (
        concat (
          codes "Disk usage on "
          ∷ target
          ∷ codes " is "
          ∷ itoa pct
          ∷ codes "%, exceeding threshold <"
          ∷ show_int limit
          ∷ codes "%"
          ∷ []))

unfoldable pub mount_of : Text → Text
mount_of [] = codes "/"
mount_of (c ∷ s) = c ∷ s

unfoldable pub evaluate_disk : Runner → DesiredRule → Verdict
unfolding passes fails evaluate_usage disk_limit mount_of
evaluate_disk r rule =
    let target = mount_of rule.target in
    let answer = r.exec (
      concat (
        codes "timeout -k 2s 5s df -Pk "
        ∷ shell_quote target
        ∷ codes " 2>/dev/null || df -Pk "
        ∷ shell_quote target
        ∷ codes " 2>/dev/null"
        ∷ [])) in
    if answer.1 == 124
    then fails (codes "unresponsive") (
        concat (
          codes "Storage/mount point '"
          ∷ target
          ∷ codes "' timed out (possible hung NFS or storage deadlock)"
          ∷ []))
    else if not (answer.1 == 0)
    then fails (codes "unreachable")
        (concat (codes "Failed to query filesystem mount: " ∷ target ∷ []))
    else evaluate_usage target (disk_limit rule.expected) (parse_df answer.0).0
        (parse_df answer.0).1

-- the files of a backup rule: "size mtime" in the first two fields
unfoldable pub evaluate_file : Runner → DesiredRule → List Text → Verdict
unfolding passes fails trim_suffix
evaluate_file r rule (size_field ∷ mtime_field ∷ rest) =
    let size = kilobytes size_field in
    let mtime = kilobytes mtime_field in
    let age = r.now - mtime in
    let details = concat (
      codes "Size: "
      ∷ itoa size
      ∷ codes " bytes, Modified: "
      ∷ r.show_time mtime
      ∷ codes " ("
      ∷ r.show_hours age
      ∷ codes "h ago)"
      ∷ []) in
    let raw = trim_suffix (trim_prefix rule.expected (codes "fresh_")) (codes "h") in
    let read : ℕ = elim (r.read_hours raw) [ none ↦ 86400 | some h ↦ h ] in
    let max_age = if has_prefix rule.expected (codes "fresh_") then read else 86400 in
    let verdict =
      if size == 0
      then fails (codes "empty_file (0 bytes)")
          (concat (codes "Backup file exists but is 0 bytes empty at " ∷ rule.target ∷ []))
      else if leb age max_age
      then passes (
          concat
            (codes "fresh (" ∷ r.show_hours age ∷ codes "h ago, " ∷ itoa size ∷ codes " B)" ∷ []))
      else fails (concat (codes "stale (" ∷ r.show_hours age ∷ codes "h ago)" ∷ [])) (
          concat (
            codes "Backup file at "
            ∷ rule.target
            ∷ codes " is stale (age: "
            ∷ r.show_hours age
            ∷ codes " hours, max allowed: "
            ∷ r.show_hours max_age
            ∷ codes " hours)"
            ∷ [])) in
    record verdict { details = details }
evaluate_file r rule _ = fails (codes "stat_error") (codes "Could not parse backup file metadata")

unfoldable pub evaluate_backup : Runner → DesiredRule → Verdict
unfolding fails evaluate_file
evaluate_backup r rule =
    let answer = r.exec (
      concat (
        codes "stat -c \"%s %Y\" "
        ∷ shell_quote rule.target
        ∷ codes " 2>/dev/null || ls -l "
        ∷ shell_quote rule.target
        ∷ codes " 2>/dev/null"
        ∷ [])) in
    let out = trim_space answer.0 in
    if not (answer.1 == 0) || teq out []
    then fails (codes "missing")
        (concat (codes "Backup file does not exist at path: " ∷ rule.target ∷ []))
    else evaluate_file r rule (fields out)
