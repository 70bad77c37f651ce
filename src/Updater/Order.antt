-- ===== src/Updater/Order.antt =====
-- Versions are ordered.
use pantau.Common.{ℕ, ◌≡◌, refl, Bool, true, false, List, [], ◌∷◌, arith}
use pantau.Common.Text.{Text}
use pantau.Updater.{Comparison, older, same, newer, compare_parts, clean, numbers, compare_versions}

abbrev pub opposite : Comparison → Comparison
opposite older = newer
opposite same = same
opposite newer = older

compare_parts-opposite : (ms ns : List ℕ) → compare_parts ns ms ≡ opposite (compare_parts ms ns)
unfolding compare_parts
compare_parts-opposite [] [] = refl
compare_parts-opposite [] (n ∷ ns) = ground (arith, compare_parts-opposite [] ns)
compare_parts-opposite (m ∷ ms) [] = ground (arith, compare_parts-opposite ms [])
compare_parts-opposite (m ∷ ms) (n ∷ ns) = ground (arith, compare_parts-opposite ms ns)

-- Comparing two versions the other way round gives the opposite answer, "dev" and empty versions
-- included.
pub compare_versions-opposite :
    (v1 v2 : Text) → compare_versions v2 v1 ≡ opposite (compare_versions v1 v2)
unfolding compare_versions
compare_versions-opposite v1 v2 =
    ground (arith, compare_parts-opposite (numbers (clean v1)) (numbers (clean v2)))

abbrev pub is_newer : Comparison → Bool
is_newer newer = true
is_newer _ = false

parts_trans :
    (ls ms ns : List ℕ)
    → is_newer (compare_parts ls ms) ≡ false
    → is_newer (compare_parts ms ns) ≡ false
    → is_newer (compare_parts ls ns) ≡ false
unfolding compare_parts
parts_trans [] [] [] h k = refl
parts_trans [] [] (n ∷ ns) h k = k
parts_trans [] (m ∷ ms) [] h k = refl
parts_trans [] (m ∷ ms) (n ∷ ns) h k = ground (arith, h, k, parts_trans [] ms ns)
parts_trans (l ∷ ls) [] [] h k = h
parts_trans (l ∷ ls) [] (n ∷ ns) h k = ground (arith, h, k, parts_trans ls [] ns)
parts_trans (l ∷ ls) (m ∷ ms) [] h k = ground (arith, h, k, parts_trans ls ms [])
parts_trans (l ∷ ls) (m ∷ ms) (n ∷ ns) h k = ground (arith, h, k, parts_trans ls ms ns)

-- If one version is not newer than a second, and that not newer than a third, then the first is not
-- newer than the third.
pub compare_versions_trans :
    (v1 v2 v3 : Text)
    → is_newer (compare_versions v1 v2) ≡ false
    → is_newer (compare_versions v2 v3) ≡ false
    → is_newer (compare_versions v1 v3) ≡ false
unfolding compare_versions
compare_versions_trans v1 v2 v3 h k =
    ground (arith, h, k, parts_trans (numbers (clean v1)) (numbers (clean v2)) (numbers (clean v3)))
