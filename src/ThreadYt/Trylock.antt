-- ===== src/ThreadYt/Trylock.antt =====
-- src/thread_yt/thread_trylock.c: chefs that look for a free stove with `pthread_mutex_trylock`.
pub mod Chefs
pub mod Waiting
use sysprog_solutions.Common.{
  ℕ, zero, suc, [], ◌∷◌, refl, some, none, true, false, Bool, List, get_elem?, replicate, ◌≡◌, set,
  ◌≢◌, ◌+◌, ◌<◌, ◌≤◌, ◌-◌,
}
use sysprog_solutions.ThreadYt.System.{State}

-- A chef tries stove `i`, waits because none was free, has a stove's lock, is about to give it back,
-- or has gone home.
pub data Pc : Type 0 where
  trying : ℕ → Pc
  waiting : Pc
  cooking leaving : ℕ → Pc
  gone : Pc

pub record Memory : Type 0 where
  pub stove_fuel : List ℕ
  pub locked : List Bool

-- `fuelNeeded` is `rand() % 30`. Behind the wait `i = 0` is followed by the `i++` of the loop.
pub data Move (m : Memory) : Pc → Memory → Pc → Type 0 where
  try_free :
      {i : ℕ}
      → get_elem? m.locked i ≡ some false
      → Move m (trying i) (record m { locked = set m.locked i true }) (cooking i)
  try_next :
      {i : ℕ} → get_elem? m.locked i ≡ some true → i ≢ 3 → Move m (trying i) m (trying (i + 1))
  try_last : {i : ℕ} → get_elem? m.locked i ≡ some true → i ≡ 3 → Move m (trying i) m waiting
  wait_over : Move m waiting m (trying 1)
  cook :
      {i fuel need : ℕ}
      → get_elem? m.stove_fuel i ≡ some fuel
      → need < 30
      → need ≤ fuel
      → Move m (cooking i) (record m { stove_fuel = set m.stove_fuel i (fuel - need) }) (leaving i)
  no_fuel :
      {i fuel need : ℕ}
      → get_elem? m.stove_fuel i ≡ some fuel
      → need < 30
      → fuel < need
      → Move m (cooking i) m (leaving i)
  unlock : {i : ℕ} → Move m (leaving i) (record m { locked = set m.locked i false }) gone

abbrev pub started : ℕ → State Memory Pc
started chefs = record {
  shared = record { stove_fuel = replicate 4 100; locked = replicate 4 false };
  threads = replicate chefs (trying 0);
}

abbrev pub trylock_demo : State Memory Pc
trylock_demo = started 10
