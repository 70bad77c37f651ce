-- ===== src/Instance/Race.antt =====
-- The removal of the lock file takes the name from a file that another process has locked.
use pantau.Common.{ℕ, ◌≡◌, false, none, some, [], ◌∷◌, ◌==◌, arith}
use pantau.Instance.{idle, holds, World, open_file, lock_file, unlock_file, remove_path, step, run}

-- Where process `a` holds the guard, and `b` and `c` are about to acquire it, two of them can hold it at
-- once: `b` opens the file before `a` closes it and locks it before `a` removes its name, and `c` then
-- creates and locks another file.
pub two_holders :
    (a b c i : ℕ) (w : World)
    → (b == a) ≡ false
    → (a == b) ≡ false
    → (c == a) ≡ false
    → (c == b) ≡ false
    → (b == c) ≡ false
    → (w.next_file == i) ≡ false
    → w.path ≡ some i
    → w.owner w.next_file ≡ none
    → w.phase a ≡ holds i
    → w.phase b ≡ idle
    → w.phase c ≡ idle
    → ((run (b ∷ a ∷ b ∷ a ∷ c ∷ c ∷ []) w).phase b ≡ holds i)
      × ((run (b ∷ a ∷ b ∷ a ∷ c ∷ c ∷ []) w).phase c ≡ holds w.next_file)
unfolding run step open_file lock_file unlock_file remove_path
two_holders a b c i w ba ab ca cb bc ni p o ha hb hc = ground arith
