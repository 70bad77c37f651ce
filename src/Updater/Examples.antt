-- ===== src/Updater/Examples.antt =====
-- A few versions.
use pantau.Common.{◌≡◌, refl, true, false}
use pantau.Common.Text.{codes}
use pantau.Updater.{same, compare_versions}
use pantau.Updater.Order.{is_newer}

dev_first : is_newer (compare_versions (codes "dev") (codes "1.2")) ≡ false
unfolding compare_versions pantau.Common.Text.teq pantau.Common.Text.trim_prefix
    pantau.Common.Text.trim_space
dev_first = refl

patch_later : is_newer (compare_versions (codes "1.2") (codes "v1.2.1-rc1")) ≡ false
unfolding compare_versions pantau.Common.Text.teq pantau.Common.Text.trim_prefix
    pantau.Common.Text.trim_space pantau.Common.Text.split pantau.Common.Numerals.atoi
patch_later = refl

candidate_same : compare_versions (codes "v1.2.0") (codes "1.2.0-rc1") ≡ same
unfolding compare_versions pantau.Common.Text.teq pantau.Common.Text.trim_prefix
    pantau.Common.Text.trim_space pantau.Common.Text.split pantau.Common.Numerals.atoi
candidate_same = refl
