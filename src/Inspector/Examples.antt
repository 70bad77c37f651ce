-- ===== src/Inspector/Examples.antt =====
-- A host with one service rule, and a disk rule below the root.
use pantau.Common.{◌↔◌, ℕ, ◌≡◌, ◌⊎◌, refl, some, none, true, false, List, [], ◌∷◌, some_of, All}
use pantau.Common.Text.{Text, codes, teq, split}
use pantau.Common.Map.{number_key, text_key, pair_key, lookup}
use pantau.Store.{DesiredRule, ItemKey, Db, list_desired_rules}
use pantau.Inspector.Verdicts.{Runner, drift}
use pantau.Inspector.Files.{evaluate_disk}
use pantau.Inspector.Rules.{evaluate_rule}
use pantau.Inspector.Drift.{evaluate_desired_rules}
use pantau.Inspector.Incidents.{IsTracked, open_drift, evaluate_desired_rules-IsTracked}
use pantau.Inspector.Disk.{IsBelowRoot, evaluate_disk_blind}
use pantau.Inspector.Outcome.{Attempt, inspect_host, already_inspecting}
use pantau.Inspector.Outcome.Healthy.{IsHealthy, inspect_host-IsHealthy}

abbrev df_output : Text
df_output =
    codes
      "Filesystem 1024-blocks Used Available Capacity Mounted on\n/dev/sdb1 1000 10 990 1% /data"

-- A host that answers every command alike.
abbrev answering : Text → Runner
answering output = record {
  exec = λ cmd. (output, 0);
  now = 0;
  show_hours = λ s. [];
  show_time = λ s. [];
  read_hours = λ s. none;
}

abbrev nginx : DesiredRule
nginx = record {
  id = 1;
  host_id = 7;
  kind = codes "service";
  target = codes "nginx";
  expected = codes "active";
  enabled = true;
}

abbrev data_disk : DesiredRule
data_disk = record nginx { kind = codes "disk"; target = codes "/data"; expected = codes "<85%" }

abbrev db : Db
db = record {
  host_status = (7, codes "unknown") ∷ [];
  desired_rules = nginx ∷ [];
  actual_items = [];
  incidents = [];
  alerts = [];
  runs = [];
}

abbrev nginx_key : ItemKey
nginx_key = (7, (codes "service", codes "nginx"))

db-IsTracked : IsTracked nginx_key db
unfolding open_drift teq lookup
db-IsTracked = refl

evaluate_desired_rules-IsTracked_example :
    IsTracked nginx_key (evaluate_desired_rules (answering (codes "failed")) 7 db).db
evaluate_desired_rules-IsTracked_example =
    evaluate_desired_rules-IsTracked (answering (codes "failed")) 7 nginx_key db db-IsTracked

below_root : All IsBelowRoot (split b'\n' df_output)
unfolding split teq pantau.Common.Text.fields pantau.Common.Text.has_suffix
below_root = (refl, (refl, tt))

evaluate_disk_blind_example :
    ((evaluate_disk (answering df_output) data_disk).status ≡ drift)
    × ((evaluate_disk (answering df_output) data_disk).current ≡ codes "unknown")
evaluate_disk_blind_example =
    evaluate_disk_blind (answering df_output) data_disk df_output (λ cmd. refl) below_root

abbrev quick : Attempt
quick = record {
  connect_error = none;
  scrape_error = none;
  late_scrape = false;
  late_rules = false;
  timeout = codes "45s";
}

known : lookup 7 db.host_status ≡ some (codes "unknown")
unfolding lookup
known = refl

inspect_host-IsHealthy_example :
    ((lookup 7 (inspect_host (answering (codes "active")) quick false 7 db).0.host_status
        ≡ some (codes "healthy"))
      ↔ IsHealthy (answering (codes "active")) quick (list_desired_rules 7 db))
    × (inspect_host (answering (codes "active")) quick true 7 db ≡ (db, some already_inspecting))
inspect_host-IsHealthy_example =
    inspect_host-IsHealthy (answering (codes "active")) quick 7 (codes "unknown") db known

service_healthy :
    lookup 7 (inspect_host (answering (codes "active")) quick false 7 db).0.host_status
    ≡ some (codes "healthy")
unfolding lookup inspect_host evaluate_desired_rules pantau.Inspector.Drift.check_rules
    list_desired_rules pantau.Inspector.Drift.check_rule teq evaluate_rule
    pantau.Inspector.Rules.evaluate_service pantau.Common.Text.trim_space pantau.Common.Map.store
service_healthy = refl
