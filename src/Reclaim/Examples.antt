-- ===== src/Reclaim/Examples.antt =====
-- Truncations of a log, of a file that a path with ".." reaches, and of a database.
use pantau.Common.{◌≡◌, refl, some, [], ◌++◌}
use pantau.Common.Text.{Text, codes, trim_space}
use pantau.Shell.{bare, read_word, shell_quote}
use pantau.Reclaim.{
  command, refused, protected_territory, database_file, not_absolute, clean_path, validate_truncate,
  validate_reclaim_request,
}
use pantau.Reclaim.Safety.{IsSafe, validate_truncate-IsSafe}

app_log :
    validate_truncate (codes " /var/log//app.log ")
    ≡ command (codes "truncate -s 0 '/var/log/app.log'")
unfolding validate_truncate pantau.Common.Text.teq pantau.Common.Text.has_prefix trim_space
    pantau.Common.Text.to_lower pantau.Common.Text.join pantau.Common.Text.split
    pantau.Common.Text.contains pantau.Common.Text.has_suffix shell_quote
app_log = refl

validate_truncate-IsSafe_example :
    (codes "truncate -s 0 '/var/log/app.log'"
      ≡ codes "truncate -s 0 "
        ++ shell_quote (clean_path (trim_space (codes " /var/log//app.log "))))
    × (read_word bare (shell_quote (clean_path (trim_space (codes " /var/log//app.log "))))
        ≡ some (clean_path (trim_space (codes " /var/log//app.log ")), []))
    × IsSafe (clean_path (trim_space (codes " /var/log//app.log ")))
validate_truncate-IsSafe_example =
    validate_truncate-IsSafe (codes " /var/log//app.log ")
      (codes "truncate -s 0 '/var/log/app.log'") app_log

through_dots :
    validate_reclaim_request (codes "truncate") (codes "/var/log/../../etc/x.log")
    ≡ refused (protected_territory (codes "/etc/x.log"))
unfolding validate_reclaim_request pantau.Common.Text.teq pantau.Common.Text.has_prefix trim_space
    pantau.Common.Text.to_lower pantau.Common.Text.join pantau.Common.Text.split
through_dots = refl

database_log :
    validate_reclaim_request (codes "truncate") (codes "/var/lib/mysql/x.log")
    ≡ refused (database_file (codes "/var/lib/mysql/x.log"))
unfolding validate_reclaim_request pantau.Common.Text.teq pantau.Common.Text.has_prefix trim_space
    pantau.Common.Text.to_lower pantau.Common.Text.join pantau.Common.Text.split
    pantau.Common.Text.contains
database_log = refl

relative_path :
    validate_reclaim_request (codes "truncate") (codes "../x.log") ≡ refused not_absolute
unfolding validate_reclaim_request pantau.Common.Text.teq pantau.Common.Text.has_prefix trim_space
    pantau.Common.Text.join pantau.Common.Text.split
relative_path = refl
