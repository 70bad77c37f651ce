-- ===== src/Instance/Exclusive.antt =====
-- A file has at most one holder.
use pantau.Common.{◌≢◌, ◌==◌, false, ℕ, ◌≡◌, some, List, [], ◌∷◌, arith}
use pantau.Instance.{holds, World, open_file, lock_file, unlock_file, remove_path, step, run}

-- A holder of a file is the process that the lock is of.
abbrev pub IsOwned : World → Type 0
IsOwned w = (p i : ℕ) → w.phase p ≡ holds i → w.owner i ≡ some p

step-IsOwned : (q : ℕ) (w : World) → IsOwned w → IsOwned (step q w)
unfolding step open_file lock_file unlock_file remove_path
step-IsOwned q w h p i e = ground (arith, h p i, h q i)

run-IsOwned : (qs : List ℕ) (w : World) → IsOwned w → IsOwned (run qs w)
unfolding run
run-IsOwned [] w h = h
run-IsOwned (q ∷ qs) w h = run-IsOwned qs (step q w) (step-IsOwned q w h)

-- In whatever order processes take their steps, from a world where the holder of a file is the one that
-- the lock is of, no other process holds a file that one holds.
pub one_holder :
    (qs : List ℕ) (w : World) (p q i : ℕ)
    → IsOwned w
    → (p == q) ≡ false
    → (run qs w).phase p ≡ holds i
    → (run qs w).phase q ≢ holds i
one_holder qs w p q i h n a b = ground (arith, run-IsOwned qs w h p i a, run-IsOwned qs w h q i b)
