-- ===== src/ThreadYt/Deadlock.antt =====
-- src/thread_yt/thread_deadlock.c: threads that take two mutexes, in one order or the other.
pub mod Sums
pub mod Outcome
use sysprog_solutions.Common.{
  ℕ, refl, some, true, false, Bool, List, ◌≡◌, replicate, get_elem?, ◌+◌, set, ◌*◌, length, ap,
  arith, ◌<◌, length-set,
}
use sysprog_solutions.ThreadYt.System.{State, bit, bit-le}

-- Before the locks, with the first one of either order, with both, behind each assignment, behind the
-- first unlock, and at the end.
pub data Pc : Type 0 where
  start has_fuel has_water has_both fuelled watered half ended : Pc

pub record Memory : Type 0 where
  pub fuel : ℕ
  pub water : ℕ
  pub fuel_locked : Bool
  pub water_locked : Bool

pub data Move (m : Memory) : Pc → Memory → Pc → Type 0 where
  even_fuel : m.fuel_locked ≡ false → Move m start (record m { fuel_locked = true }) has_fuel
  even_water : m.water_locked ≡ false → Move m has_fuel (record m { water_locked = true }) has_both
  odd_water : m.water_locked ≡ false → Move m start (record m { water_locked = true }) has_water
  odd_fuel : m.fuel_locked ≡ false → Move m has_water (record m { fuel_locked = true }) has_both
  add_fuel : Move m has_both (record m { fuel = m.fuel + 50 }) fuelled
  set_water : Move m fuelled (record m { water = m.fuel }) watered
  unlock_fuel : Move m watered (record m { fuel_locked = false }) half
  unlock_water : Move m half (record m { water_locked = false }) ended

abbrev pub started : ℕ → State Memory Pc
started threads = record {
  shared = record { fuel = 50; water = 10; fuel_locked = false; water_locked = false };
  threads = replicate threads start;
}

abbrev pub deadlock_demo : State Memory Pc
deadlock_demo = started 8
