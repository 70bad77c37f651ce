-- ===== src/Instance.antt =====
-- internal/instance/guard.go: the lock file of Acquire and Close, with the steps of processes in any
-- order. A file is a number, which stands for its inode; what is written into it is left out, and flock
-- gives one descriptor of a file the lock.
pub mod Race
pub mod Exclusive
mod Examples
use pantau.Common.{ℕ, suc, Option, none, some, List, [], ◌∷◌, ◌==◌, if◌then◌else◌}

-- idle before an attempt and after one that failed; opened between OpenFile and lockFile; holds with a
-- guard; closing between the close of the file and its removal.
pub data Phase : Type 0 where
  idle : Phase
  opened : ℕ → Phase
  holds : ℕ → Phase
  closing : Phase

pub record World : Type 0 where
  pub path : Option ℕ
  pub next_file : ℕ
  pub owner : ℕ → Option ℕ
  pub phase : ℕ → Phase

abbrev pub put_at {ℓ} : {A : Type ℓ} → ℕ → A → (ℕ → A) → ℕ → A
put_at k v f n = if n == k then v else f n

abbrev pub with_phase : ℕ → Phase → World → World
with_phase p f w = record w { phase = put_at p f w.phase }

-- os.OpenFile(lockPath, os.O_CREATE|os.O_RDWR, 0600)
unfoldable pub open_file : ℕ → World → World
open_file p w = elim w.path [
  | some i ↦ with_phase p (opened i) w
  | none ↦
      with_phase p (opened w.next_file)
        (record w { path = some w.next_file; next_file = suc w.next_file })
]

-- lockFile, and the close of the file where the lock is taken
unfoldable pub lock_file : ℕ → ℕ → World → World
lock_file p i w = elim (w.owner i) [
  | some q ↦ with_phase p idle w
  | none ↦ with_phase p (holds i) (record w { owner = put_at i (some p) w.owner })
]

-- the first part of Close: unlockFile and the close of the file
unfoldable pub unlock_file : ℕ → ℕ → World → World
unlock_file p i w = with_phase p closing (record w { owner = put_at i none w.owner })

-- os.Remove(g.lockPath)
unfoldable pub remove_path : ℕ → World → World
remove_path p w = with_phase p idle (record w { path = none })

-- The next step of a process: an attempt of AcquireWithTimeout, or Close where it holds a guard.
unfoldable pub step : ℕ → World → World
unfolding open_file lock_file unlock_file remove_path
step p w = elim (w.phase p) [
  | idle ↦ open_file p w
  | opened i ↦ lock_file p i w
  | holds i ↦ unlock_file p i w
  | closing ↦ remove_path p w
]

unfoldable pub run : List ℕ → World → World
unfolding step
run [] w = w
run (p ∷ ps) w = run ps (step p w)
