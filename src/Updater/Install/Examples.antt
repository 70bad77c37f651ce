-- ===== src/Updater/Install/Examples.antt =====
-- One update on linux, and a few names.
use pantau.Common.{◌≡◌, refl, Bool, true, false, Option, none, some, List, [], ◌∷◌, if◌then◌else◌}
use pantau.Common.Text.{Text, codes, teq}
use pantau.Updater.Install.{
  GitHubRelease, UpdateWorld, no_choice, archive_ext, choose_assets, base, Files, apply_update,
  checksum_mismatch,
}
use pantau.Updater.Install.Verified.{IsOutcome, apply_update-IsOutcome}

abbrev archive_name : Text
archive_name = codes "pantau-v2-linux-amd64.tar.gz"

abbrev one_release : GitHubRelease
one_release = record {
  tag_name = codes "v2";
  assets =
      record { name = codes "checksums.txt"; url = codes "s" }
      ∷ record { name = archive_name; url = codes "a" }
      ∷ [];
}

-- Every hash is the same text here.
abbrev two_downloads : Text → Option Text
two_downloads url =
    if teq url (codes "s")
    then some (codes "AB  *pantau-v2-linux-amd64.tar.gz")
    else if teq url (codes "a")
    then some (codes "zip")
    else none

abbrev world_with : Text → UpdateWorld
world_with hash = record {
  is_docker = false;
  goos = codes "linux";
  goarch = codes "amd64";
  release = some one_release;
  download = two_downloads;
  sha256_hex = λ bytes. hash;
  read_archive = λ zip bytes.
      some ((codes "README.md", some []) ∷ (codes "dist/pantau", some (codes "new")) ∷ []);
  located = true;
  writes = true;
  smoke_test = λ binary. true;
  rename_old = true;
  rename_new = true;
  roll_back = true;
}

abbrev old_files : Files
old_files = record { executable = some (codes "old"); old_executable = none }

directory_base : base (codes "dist/pantau/") ≡ codes "pantau"
unfolding base teq
directory_base = refl

updated :
    apply_update (world_with (codes "ab")) old_files
    ≡ (none, record old_files { executable = some (codes "new") })
unfolding apply_update teq pantau.Common.Text.contains pantau.Common.Text.has_suffix
    pantau.Common.Text.split pantau.Common.Text.fields pantau.Common.Text.trim_space
    pantau.Common.Text.equal_fold
updated = refl

mismatch : apply_update (world_with (codes "ac")) old_files ≡ (some checksum_mismatch, old_files)
unfolding apply_update teq pantau.Common.Text.contains pantau.Common.Text.has_suffix
    pantau.Common.Text.split pantau.Common.Text.fields pantau.Common.Text.trim_space
    pantau.Common.Text.equal_fold
mismatch = refl

apply_update-IsOutcome_example :
    IsOutcome
      (world_with (codes "ab"))
      (choose_assets
        (codes "linux")
        (codes "amd64")
        (archive_ext (codes "linux"))
        one_release.assets
        no_choice)
      old_files
      (apply_update (world_with (codes "ab")) old_files)
apply_update-IsOutcome_example =
    apply_update-IsOutcome (world_with (codes "ab")) one_release old_files refl
