-- ===== src/Snapshot/Backup.antt =====
-- internal/snapshot/snapshot.go: the manager of backups, with the settings it keeps. Exporting and
-- importing a payload, the clock and the ciphers are parameters.
pub mod Restore
use pantau.Common.{
  ℕ, suc, ◌+◌, ◌-◌, ◌*◌, Bool, true, false, not, ◌&&◌, ◌||◌, Option, none, some, List, [], ◌∷◌,
  ◌++◌, ltb, ◌==◌, if◌then◌else◌,
}
use pantau.Common.Text.{Text, codes, teq, trim_space}
use pantau.Common.Map.{Map, text_key, lookup, store}
use pantau.Common.Int.{pos_part}
use pantau.Common.Numerals.{atoi}
use pantau.Snapshot.{Codec, encrypt, Decrypted, decrypted, decrypt}
use pantau.Snapshot.GitHub.{
  Place, Network, Pulled, no_pull, pulled, pull, push, clean_repo, or_default_path,
}

abbrev pub Settings : Type 0
Settings = Map Text Text

-- GetSetting, empty where there is none
abbrev pub setting : Text → Settings → Text
setting k s = elim (lookup k s) [ none ↦ [] | some v ↦ v ]

-- What a backup takes from outside: ExportSnapshot, the salt and the nonce, the message, and the time
-- as a text.
pub record BackupEnv {ℓ} (P : Type ℓ) : Type ℓ where
  pub exported : Option P
  pub salt : Text
  pub nonce : Text
  pub message : Text
  pub now_text : Text

pub data BackupResult : Type 0 where
  unconfigured export_failed encrypt_failed push_failed backed_up : BackupResult

abbrev pub place_of : Settings → Place
place_of s = record {
  repo = setting (codes "github_repo") s;
  token = setting (codes "github_token") s;
  branch = setting (codes "github_branch") s;
  file_path = or_default_path (setting (codes "github_file_path") s);
}

-- recordStatus
abbrev pub record_status : Text → Settings → Settings
record_status st s = store (codes "last_backup_status") st s

abbrev pub is_unconfigured : Text → Text → Text → Bool
is_unconfigured repo token passphrase = teq repo [] || teq token [] || teq passphrase []

-- whether a backup is due; `parse_time` is time.Parse, in seconds
unfoldable pub is_due : (Text → Option ℕ) → ℕ → Settings → Bool
is_due parse_time now s =
    let hours = elim (atoi (setting (codes "backup_interval_hours") s)) as (λ x. ℕ) [
      | none ↦ 0
      | some n ↦ pos_part n
    ] in
    let interval = (if hours == 0 then 24 else hours) * 3600 in
    let last = setting (codes "last_backup_time") s in
    let p = place_of s in
    if not (teq (setting (codes "github_backup_enabled") s) (codes "1"))
    then false
    else if is_unconfigured p.repo p.token (setting (codes "snapshot_passphrase") s)
    then false
    else if teq last []
    then true
    else elim (parse_time last) [ none ↦ true | some t ↦ not (ltb (now - t) interval) ]

module _ {ℓ κ} {P : Type ℓ} {W : Type κ} where
  -- the push of SyncNow
  unfoldable pub sync_push :
      Network W → BackupEnv P → Text → Settings → W → BackupResult × Settings × W
  sync_push net e file s w =
      let r = push net (place_of s) file e.message w in
      if r.0
      then (
        backed_up,
        record_status (codes "ok") (store (codes "last_backup_time") e.now_text s),
        r.1,
      )
      else (push_failed, record_status (codes "github_push_error") s, r.1)

  -- SyncNow
  unfoldable pub sync_now :
      Codec P → Network W → BackupEnv P → Settings → W → BackupResult × Settings × W
  unfolding sync_push
  sync_now c net e s w =
      let passphrase = setting (codes "snapshot_passphrase") s in
      let p = place_of s in
      if is_unconfigured p.repo p.token passphrase then (unconfigured, s, w) else elim e.exported [
        | none ↦ (export_failed, record_status (codes "export_error") s, w)
        | some payload ↦ elim (encrypt c e.salt e.nonce payload passphrase) [
          | none ↦ (encrypt_failed, record_status (codes "encrypt_error") s, w)
          | some file ↦ sync_push net e file s w
        ]
      ]

  -- checkAndBackup
  unfoldable pub check_and_backup :
      (Text → Option ℕ)
      → ℕ
      → Codec P
      → Network W
      → BackupEnv P
      → Settings
      → W
      → Option BackupResult × Settings × W
  unfolding is_due sync_now
  check_and_backup parse_time now c net e s w =
      let r = sync_now c net e s w in
      if is_due parse_time now s then (some r.0, r.1, r.2) else (none, s, w)

pub data Restored {ℓ} (P : Type ℓ) : Type ℓ where
  incomplete pull_failed import_failed : Restored P
  undecrypted : Decrypted P → Restored P
  restored : P → Restored P

abbrev set_branch : Text → Settings → Settings
set_branch b s = if teq b [] then s else store (codes "github_branch") b s

-- the settings that RestoreFromGitHub stores
unfoldable pub restored_settings : Place → Text → Settings → Settings
restored_settings p passphrase s = record_status (codes "restored from github") (
    store (codes "snapshot_passphrase") passphrase (
      store (codes "github_file_path") p.file_path (
        set_branch p.branch (
          store (codes "github_token") p.token (
            store (codes "github_repo") (clean_repo p.repo)
              (store (codes "github_backup_enabled") (codes "1") s))))))

module _ {ℓ κ} {P : Type ℓ} {W : Type κ} where
  -- RestoreFromGitHub; `import` is ImportSnapshot, with the settings after it where it succeeds
  unfoldable pub restore_from_github :
      Codec P
      → Network W
      → (P → Settings → Option Settings)
      → Place
      → Text
      → Settings
      → W
      → Restored P × Settings
  unfolding restored_settings
  restore_from_github c net import_snapshot place passphrase s w =
      let p = record place { file_path = or_default_path place.file_path } in
      if is_unconfigured p.repo p.token passphrase then (incomplete, s) else elim (pull net p w) [
        | no_pull e ↦ (pull_failed, s)
        | pulled file sha ↦ elim (decrypt c file passphrase) [
          | decrypted payload ↦ elim (import_snapshot payload s) [
            | none ↦ (import_failed, s)
            | some t ↦ (restored payload, restored_settings p passphrase t)
          ]
          | other ↦ (undecrypted other, s)
        ]
      ]
