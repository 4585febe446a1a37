-- ===== src/ThreadYt/Pool.antt =====
-- src/thread_yt/thread_pool.c: tasks in an array behind one mutex, and threads that wait for them on
-- a condition variable.
pub mod Contents
pub mod Threads
pub mod Invariant
pub mod Progress
pub mod Done
use sysprog_solutions.Common.{
  ℕ, zero, suc, [], ◌∷◌, refl, some, none, true, false, Bool, List, Option, get_elem?,
  if◌then◌else◌, set, ◌-◌, ltb, length, ◌+◌,
}

pub record Task : Type 0 where
  pub a : ℕ
  pub b : ℕ

-- `taskQueue` and `taskCount`.
pub record Queue : Type 0 where
  pub cells : List Task
  pub count : ℕ

-- `taskQueue[taskCount] = task; taskCount++;`, with `none` for a store outside the array.
pub submit_task : Task → Queue → Option Queue
submit_task t q =
    if ltb q.count (length q.cells)
    then some (record { cells = set q.cells q.count t; count = q.count + 1 })
    else none

infixl 5 ◌>>=◌
abbrev ◌>>=◌ {ℓ κ} : {A : Type ℓ} {B : Type κ} → Option A → (A → Option B) → Option B
◌>>=◌ (some a) k = k a
◌>>=◌ none k = none

-- The loop that moves each task one place down, with the rounds that are left.
pub shift : ℕ → ℕ → List Task → Option (List Task)
shift zero i cells = some cells
shift (suc n) i cells = do next ← get_elem? cells (suc i); shift n (suc i) (set cells i next)

-- `task = taskQueue[0]`, the loop and `taskCount--`.
pub first_task : Queue → Option (Task × Queue)
unfolding shift
first_task q = do
  task ← get_elem? q.cells 0
  cells ← shift (q.count - 1) 0 q.cells
  some (task, record { cells = cells; count = q.count - 1 })
