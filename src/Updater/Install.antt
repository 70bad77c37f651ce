-- ===== src/Updater/Install.antt =====
-- internal/updater/updater.go: Check with its cache, and ApplyUpdate with the checksum of a download.
-- HTTP, archives, hashes, the file system and the run of the candidate are parameters; times are seconds.
pub mod Verified
mod Examples
use pantau.Common.{
  ℕ, zero, suc, ◌+◌, ◌-◌, ◌*◌, Bool, true, false, not, ◌&&◌, ◌||◌, Option, none, some, List, [],
  ◌∷◌, ◌++◌, ltb, leb, ◌==◌, if◌then◌else◌,
}
use mathlib.Core.List.{reverse}
use pantau.Common.Text.{
  Text, codes, teq, equal_fold, contains, has_suffix, trim_space, split, fields,
}
use pantau.Updater.{Comparison, newer, compare_versions}

pub record GitHubAsset : Type 0 where
  pub name : Text
  pub url : Text

pub record GitHubRelease : Type 0 where
  pub tag_name : Text
  pub assets : List GitHubAsset

pub record CheckResult : Type 0 where
  pub available : Bool
  pub latest_version : Text
  pub checked_at : ℕ
  pub failed : Bool

pub record Manager : Type 0 where
  pub current_version : Text
  pub disabled : Bool
  pub last_check : ℕ
  pub cached_check : Option CheckResult

abbrev pub cache_ttl : ℕ
cache_ttl = 6 * 3600

-- storeCache
unfoldable pub store_cache : CheckResult → ℕ → Manager → Manager
store_cache r now m = record m { cached_check = some r; last_check = now }

abbrev is_newer : Comparison → Bool
is_newer c = elim c [ newer ↦ true | _ ↦ false ]

-- the part of Check that asks GitHub: the release, if the API answers with one
unfoldable pub check_release : Option GitHubRelease → ℕ → Manager → CheckResult
check_release none now m = record {
  available = false;
  latest_version = [];
  checked_at = now;
  failed = true;
}
check_release (some r) now m = record {
  available = is_newer (compare_versions r.tag_name m.current_version);
  latest_version = r.tag_name;
  checked_at = now;
  failed = false;
}

-- Check; `answer` is what GitHub would answer now
unfoldable pub check : Bool → Option GitHubRelease → ℕ → Manager → CheckResult × Manager
unfolding store_cache check_release
check force answer now m =
    let fresh = check_release (if m.disabled then none else answer) now m in
    let asked : CheckResult × Manager = (fresh, store_cache fresh now m) in
    elim m.cached_check [
      | none ↦ asked
      | some r ↦ if not force && ltb (now - m.last_check) cache_ttl then (r, m) else asked
    ]

-- what follows the last slash
unfoldable pub base_from : Text → Text → Text
base_from acc [] = reverse acc
base_from acc (c ∷ s) =
    let cut = base_from [] s in let more = base_from (c ∷ acc) s in if c == b'/' then cut else more

-- a reversed path without its leading slashes
unfoldable pub drop_slashes : Text → Text
drop_slashes [] = []
drop_slashes (c ∷ s) = let rest = drop_slashes s in if c == b'/' then rest else c ∷ s

-- filepath.Base, where the slash is the separator
unfoldable pub base : Text → Text
unfolding base_from drop_slashes
base path =
    let stripped = reverse (drop_slashes (reverse path)) in
    if teq path [] then codes "." else if teq stripped [] then codes "/" else base_from [] stripped

-- the hash of a line of checksums.txt, if it is of this file
unfoldable pub checksum_of : Text → List Text → Option Text
unfolding base
checksum_of file [] = none
checksum_of file (hash ∷ []) = none
checksum_of file (hash ∷ name ∷ rest) =
    let fn = base name in if teq fn file || teq fn (b'*' ∷ file) then some hash else none

unfoldable pub find_checksum : Text → List Text → Option Text
unfolding checksum_of
find_checksum file [] = none
find_checksum file (l ∷ ls) =
    let rest = find_checksum file ls in
    elim (checksum_of file (fields (trim_space l))) [ none ↦ rest | some h ↦ some h ]

-- parseChecksum
unfoldable pub parse_checksum : Text → Text → Option Text
unfolding find_checksum
parse_checksum bytes file = find_checksum file (split 10 bytes)

-- the first entry of an archive with this name; an entry that cannot be read has no content
unfoldable pub find_entry : Text → List (Text × Option Text) → Option Text
unfolding base
find_entry name [] = none
find_entry name ((n, content) ∷ es) =
    let rest = find_entry name es in if teq (base n) name then content else rest

-- What ApplyUpdate meets.
pub record UpdateWorld : Type 0 where
  pub is_docker : Bool
  pub goos : Text
  pub goarch : Text
  pub release : Option GitHubRelease
  pub download : Text → Option Text
  pub sha256_hex : Text → Text
  pub read_archive : Bool → Text → Option (List (Text × Option Text))
  pub located : Bool
  pub writes : Bool
  pub smoke_test : Text → Bool
  pub rename_old : Bool
  pub rename_new : Bool
  pub roll_back : Bool

-- extractBinary
unfoldable pub extract_binary : UpdateWorld → Text → Text → Text → Option Text
unfolding find_entry
extract_binary w archive asset binary =
    elim (w.read_archive (has_suffix asset (codes ".zip")) archive) [
      | none ↦ none
      | some entries ↦ find_entry binary entries
    ]

-- what the loop over the assets has chosen so far, [] at first; the last that fits stays
pub record Choice : Type 0 where
  pub asset_name : Text
  pub asset_url : Text
  pub checksums_url : Text

abbrev pub no_choice : Choice
no_choice = record { asset_name = []; asset_url = []; checksums_url = [] }

abbrev is_checksums : Text → Bool
is_checksums n = teq n (codes "checksums.txt") || teq n (codes "sha256sums.txt")

abbrev pub fits : Text → Text → Text → Text → Bool
fits os arch ext n = contains n os && contains n arch && has_suffix n ext

unfoldable pub choose_asset : Text → Text → Text → GitHubAsset → Choice → Choice
choose_asset os arch ext a c =
    let fit = fits os arch ext a.name in
    record {
      asset_name = if fit then a.name else c.asset_name;
      asset_url = if fit then a.url else c.asset_url;
      checksums_url = if is_checksums a.name then a.url else c.checksums_url;
    }

unfoldable pub choose_assets : Text → Text → Text → List GitHubAsset → Choice → Choice
unfolding choose_asset
choose_assets os arch ext [] c = c
choose_assets os arch ext (a ∷ assets) c =
    choose_assets os arch ext assets (choose_asset os arch ext a c)

pub data UpdateError : Type 0 where
  in_docker no_release no_asset no_checksums download_failed no_checksum_entry : UpdateError
  checksum_mismatch no_binary not_located not_written smoke_test_failed not_installed : UpdateError

-- The executable and the one put aside, each with its bytes, if it is there.
pub record Files : Type 0 where
  pub executable : Option Text
  pub old_executable : Option Text

-- the atomic swap
unfoldable pub swap : UpdateWorld → Text → Files → Option UpdateError × Files
swap w binary f =
    let installed = record f { executable = some binary } in
    let moved : Files = record { executable = none; old_executable = f.executable } in
    if not (teq w.goos (codes "windows"))
    then (if w.rename_new then (none, installed) else (some not_installed, f))
    else if not w.rename_old
    then (some not_installed, record f { old_executable = none })
    else if w.rename_new
    then (none, record moved { executable = some binary })
    else if w.roll_back
    then (some not_installed, record moved { executable = f.executable; old_executable = none })
    else (some not_installed, moved)

-- steps 5 to 7
unfoldable pub install : UpdateWorld → Text → Files → Option UpdateError × Files
unfolding swap
install w binary f =
    if not w.located
    then (some not_located, f)
    else if not w.writes
    then (some not_written, f)
    else if not (w.smoke_test binary)
    then (some smoke_test_failed, f)
    else swap w binary f

abbrev pub binary_name : Text → Text
binary_name os = if teq os (codes "windows") then codes "pantau.exe" else codes "pantau"

-- steps 1 to 4: the binary of a download whose hash is the one in checksums.txt
unfoldable pub fetch_binary : UpdateWorld → Choice → UpdateError × Option Text
unfolding parse_checksum extract_binary
fetch_binary w c = elim (w.download c.checksums_url) [
  | none ↦ (download_failed, none)
  | some listing ↦ elim (parse_checksum listing c.asset_name) [
    | none ↦ (no_checksum_entry, none)
    | some expected ↦ elim (w.download c.asset_url) [
      | none ↦ (download_failed, none)
      | some archive ↦
          if not (equal_fold (w.sha256_hex archive) expected)
          then (checksum_mismatch, none)
          else (no_binary, extract_binary w archive c.asset_name (binary_name w.goos))
    ]
  ]
]

abbrev pub archive_ext : Text → Text
archive_ext os = if teq os (codes "windows") then codes ".zip" else codes ".tar.gz"

-- what follows the choice of the assets
unfoldable pub apply_choice : UpdateWorld → Choice → Files → Option UpdateError × Files
unfolding fetch_binary install
apply_choice w c f =
    let got = fetch_binary w c in
    if teq c.asset_url []
    then (some no_asset, f)
    else if teq c.checksums_url []
    then (some no_checksums, f)
    else elim got.1 [ none ↦ (some got.0, f) | some binary ↦ install w binary f ]

-- ApplyUpdate: the error, if there is one, and the files after it
unfoldable pub apply_update : UpdateWorld → Files → Option UpdateError × Files
unfolding choose_assets apply_choice
apply_update w f = elim w.release [
  | none ↦ (some (if w.is_docker then in_docker else no_release), f)
  | some r ↦
      let done =
        apply_choice w (choose_assets w.goos w.goarch (archive_ext w.goos) r.assets no_choice) f in
      if w.is_docker then (some in_docker, f) else done
]
