-- ===== src/Terminal/Examples.antt =====
-- The native terminal at concrete inputs.
use pantau.Common.{◌≡◌, ◌≤◌, ◌↔◌, ◌++◌, refl, true, false, none, some, List, [], ◌∷◌, keep, some_of}
use pantau.Common.Text.{Text, codes}
use pantau.Terminal.{clean_initial_dir, build_remote_cd_clause, sanitize_filename}
use pantau.Terminal.Bash.{has_live, read_double}
use pantau.Terminal.Shells.{launched_clause_unchanged}
use pantau.Terminal.Names.{IsFileName, sanitize_filename-IsFileName}
use pantau.Terminal.Keys.Admin.{
  is_admin, KeyEvent, injects, sweeps, cleans, change_all, admin_lines_stay,
}
use pantau.Terminal.Tickets.{TicketEnv}
use pantau.Terminal.Tickets.Single.{
  Call, asks, downloads, timer, serve_all, redeems, issues, total_of, no_tickets, redeemed-le,
}

-- a directory with a command in it
abbrev trap_dir : Text
trap_dir = codes "/srv/$(id)"

launched_clause_unchanged_example :
    (read_double false (build_remote_cd_clause trap_dir ++ b'"' ∷ [])
      ≡ some (build_remote_cd_clause trap_dir, []))
    ↔ (has_live (clean_initial_dir trap_dir) ≡ false)
unfolding pantau.Common.Text.has_prefix clean_initial_dir pantau.Common.Text.trim_space
launched_clause_unchanged_example = launched_clause_unchanged trap_dir refl refl

trap_expands : read_double false (build_remote_cd_clause trap_dir ++ b'"' ∷ []) ≡ none
unfolding read_double build_remote_cd_clause pantau.Common.Text.teq pantau.Common.Text.trim_space
    pantau.Common.Text.has_prefix pantau.Shell.escape_quotes
trap_expands = refl

-- A dollar sign that starts no expansion is passed on.
lone_dollar :
    read_double false (build_remote_cd_clause (codes "/srv/a$/b$") ++ b'"' ∷ [])
    ≡ some (build_remote_cd_clause (codes "/srv/a$/b$"), [])
unfolding read_double build_remote_cd_clause pantau.Common.Text.teq pantau.Common.Text.trim_space
    pantau.Common.Text.has_prefix pantau.Shell.escape_quotes
lone_dollar = refl

sanitize_filename-IsFileName_example : IsFileName (sanitize_filename (codes "../db 1:prod"))
sanitize_filename-IsFileName_example = sanitize_filename-IsFileName (codes "../db 1:prod")

db_name : sanitize_filename (codes "../db 1:prod") ≡ codes "db_1prod"
unfolding sanitize_filename
db_name = refl

abbrev our_key : Text
our_key = codes "ssh-rsa AAAA pantau-ephemeral-0a1b-1700000300"

abbrev file : List Text
file =
    codes "ssh-ed25519 AAAB admin@office"
    ∷ codes "ssh-rsa AAAC pantau-ephemeral-99ff-1600000000"
    ∷ []

abbrev key_events : List KeyEvent
key_events = injects 1700000000 our_key ∷ sweeps 1700000100 ∷ cleans (codes "0a1b") ∷ []

admin_lines_stay_example : keep is_admin (change_all key_events file) ≡ keep is_admin file
unfolding pantau.Common.Text.contains pantau.Common.Text.trim_space
admin_lines_stay_example = admin_lines_stay key_events file (refl, (tt, (tt, tt)))

only_admin_left : change_all key_events file ≡ codes "ssh-ed25519 AAAB admin@office" ∷ []
unfolding change_all pantau.Common.Text.teq pantau.Common.Text.trim_space pantau.Common.Text.fields
    pantau.Common.Text.has_prefix pantau.Common.Text.contains pantau.Common.Numerals.digits_value
only_admin_left = refl

abbrev env : TicketEnv
env = record {
  now = 1700000000;
  get_host = λ id. some (record {
    id = id;
    name = codes "db";
    address = codes "10.0.0.7";
    port = 0;
    user = codes "root";
  });
  reaches = true;
  key_id = codes "0a1b";
  pub_bytes = codes "ssh-rsa AAAA";
  private_key = codes "KEY";
  new_token = codes "t1";
}

abbrev calls : List Call
calls =
    asks env (record { host_id = 7; path = codes "/srv"; initial_dir = [] })
    ∷ downloads 1700000010 (codes "t1/") (codes "win")
    ∷ downloads 1700000011 (codes "t1") (codes "linux")
    ∷ timer (codes "t1")
    ∷ []

redeemed-le_example :
    total_of (redeems (codes "t1")) (serve_all calls no_tickets)
    ≤ total_of (issues (codes "t1")) (serve_all calls no_tickets)
redeemed-le_example = redeemed-le (codes "t1") calls

redeemed_once : total_of (redeems (codes "t1")) (serve_all calls no_tickets) ≡ 1
unfolding serve_all pantau.Common.Text.teq pantau.Terminal.Tickets.trim_right_slashes
    pantau.Common.Map.lookup pantau.Common.Map.store pantau.Common.Text.to_lower
redeemed_once = refl
