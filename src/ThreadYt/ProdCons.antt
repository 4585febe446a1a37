-- ===== src/ThreadYt/ProdCons.antt =====
-- src/thread_yt/prod_cons.c: producers and a consumer on a buffer of ten numbers.
pub mod Invariant
pub mod Safety
use sysprog_solutions.Common.{
  ℕ, zero, suc, [], ◌∷◌, refl, some, none, true, false, Bool, List, ◌<◌, replicate, ◌-◌, ◌≡◌, set,
  ◌+◌, get_elem?,
}
use sysprog_solutions.ThreadYt.System.{State}

-- Where a producer or the consumer stands, with its `x` or `y` where it has one: before it has a
-- number, before `sem_wait`, before and behind the lock, behind the change of the buffer, and
-- before `sem_post`.
pub data Pc : Type 0 where
  produce : Pc
  full_handed : ℕ → Pc
  slot_reserved : ℕ → Pc
  adding : ℕ → Pc
  added posting : Pc
  consume item_reserved taking : Pc
  taken : ℕ → Pc
  freeing : ℕ → Pc

pub record Memory : Type 0 where
  pub sem_empty : ℕ
  pub sem_full : ℕ
  pub locked : Bool
  pub buffer : List ℕ
  pub count : ℕ

-- The loops never end.
pub data Move (m : Memory) : Pc → Memory → Pc → Type 0 where
  rand : {x : ℕ} → x < 100 → Move m produce m (full_handed x)
  wait_empty :
      {x : ℕ}
      → 0 < m.sem_empty
      → Move m (full_handed x) (record m { sem_empty = m.sem_empty - 1 }) (slot_reserved x)
  lock_add :
      {x : ℕ} → m.locked ≡ false → Move m (slot_reserved x) (record m { locked = true }) (adding x)
  add :
      {x : ℕ}
      → Move m (adding x) (record m { buffer = set m.buffer m.count x; count = m.count + 1 }) added
  unlock_add : Move m added (record m { locked = false }) posting
  post_full : Move m posting (record m { sem_full = m.sem_full + 1 }) produce
  wait_full : 0 < m.sem_full → Move m consume (record m { sem_full = m.sem_full - 1 }) item_reserved
  lock_take : m.locked ≡ false → Move m item_reserved (record m { locked = true }) taking
  take :
      {y : ℕ}
      → get_elem? m.buffer (m.count - 1) ≡ some y
      → Move m taking (record m { count = m.count - 1 }) (taken y)
  unlock_take : {y : ℕ} → Move m (taken y) (record m { locked = false }) (freeing y)
  post_empty : {y : ℕ} → Move m (freeing y) (record m { sem_empty = m.sem_empty + 1 }) consume

-- The first thread is the consumer.
abbrev pub started : ℕ → List ℕ → State Memory Pc
started producers buffer = record {
  shared = record { sem_empty = 10; sem_full = 0; locked = false; buffer = buffer; count = 0 };
  threads = consume ∷ replicate producers produce;
}

abbrev pub prod_cons_demo : State Memory Pc
prod_cons_demo = started 7 (replicate 10 0)
