-- ===== src/ThreadYt/Recursive.antt =====
-- src/thread_yt/thread_recursive_mutex.c: threads that lock one recursive mutex five times over.
pub mod Filled
use sysprog_solutions.Common.{ℕ, zero, suc, ◌≡◌, ◌<◌, ◌+◌, ◌-◌, replicate}
use sysprog_solutions.ThreadYt.System.{State}

-- `routine` with the locks that the thread holds: before its next lock, inside `fuel += 50`, and
-- behind it. It ends at `unlocking 0`.
pub data Pc : Type 0 where
  locking : ℕ → Pc
  loaded : ℕ → Pc
  unlocking : ℕ → Pc

-- `depth` counts the locks on `mutexFuel`, which one thread holds.
pub record Memory : Type 0 where
  pub fuel : ℕ
  pub depth : ℕ

-- A thread takes its first lock where no thread holds one, and any further lock at once.
pub data Move (m : Memory) : Pc → Memory → Pc → Type 0 where
  lock_first : m.depth ≡ 0 → Move m (locking 0) (record m { depth = 1 }) (locking 1)
  lock_again :
      {k : ℕ}
      → suc k < 5
      → Move m (locking (suc k)) (record m { depth = m.depth + 1 }) (locking (suc (suc k)))
  load : Move m (locking 5) m (loaded m.fuel)
  store : {v : ℕ} → Move m (loaded v) (record m { fuel = v + 50 }) (unlocking 5)
  unlock : {k : ℕ} → Move m (unlocking (suc k)) (record m { depth = m.depth - 1 }) (unlocking k)

abbrev pub started : ℕ → State Memory Pc
started n = record { shared = record { fuel = 50; depth = 0 }; threads = replicate n (locking 0) }

abbrev pub recursive_demo : State Memory Pc
recursive_demo = started 8
