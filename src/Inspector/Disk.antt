-- ===== src/Inspector/Disk.antt =====
-- Which mount points a disk rule can read.
use pantau.Common.{◌≡◌, refl, false, ◌||◌, List, [], ◌∷◌, arith, All}
use pantau.Common.Text.{Text, codes, teq, has_suffix, split, fields}
use pantau.Store.{DesiredRule}
use pantau.Inspector.Verdicts.{Runner, drift, fails, part}
use pantau.Inspector.Files.{parse_df, parse_df_lines, evaluate_disk, evaluate_usage}

-- A line of df whose mount point does not end in a slash: every mount point but the root.
abbrev pub IsBelowRoot : Text → Type 0
IsBelowRoot l =
    (teq (part (fields l) 5) (codes "/") || has_suffix (part (fields l) 5) (codes "/")) ≡ false

parse_df_lines_blind : (lines : List Text) → All IsBelowRoot lines → parse_df_lines lines ≡ (0, 0)
unfolding parse_df_lines
parse_df_lines_blind [] h = refl
parse_df_lines_blind (l ∷ lines) h = ground (arith, h.0, parse_df_lines_blind lines h.1)

-- A disk rule drifts as unreadable on whatever df answers, however empty the disk, unless a line
-- names a mount point that ends in a slash.
pub evaluate_disk_blind :
    (r : Runner) (rule : DesiredRule) (output : Text)
    → ((cmd : Text) → r.exec cmd ≡ (output, 0))
    → All IsBelowRoot (split b'\n' output)
    → ((evaluate_disk r rule).status ≡ drift) × ((evaluate_disk r rule).current ≡ codes "unknown")
unfolding evaluate_disk parse_df evaluate_usage fails
evaluate_disk_blind r rule output answers h =
    rw (answers, parse_df_lines_blind (split b'\n' output) h, evaluate_disk) (refl, refl)
