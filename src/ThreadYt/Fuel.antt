-- ===== src/ThreadYt/Fuel.antt =====
-- src/thread_yt/thread_cv.c: cars that wait for fuel on a condition variable, and a thread that fills
-- it up five times.
pub mod Invariant
pub mod Progress
use sysprog_solutions.Common.{
  ℕ, zero, suc, [], ◌∷◌, refl, some, none, true, false, Bool, ◌≡◌, replicate, ◌+◌, ◌++◌, ◌<◌, ◌≤◌,
  ◌-◌,
}
use sysprog_solutions.ThreadYt.System.{State}

-- `fuel_filling` with the rounds that are left: before the lock, behind it, behind the change, and
-- before the broadcast. A car: before the lock, at its `while`, in `pthread_cond_wait` since so many
-- broadcasts, before it has the lock again, behind its change, and at its end.
pub data Pc : Type 0 where
  fill filling filled broadcasting : ℕ → Pc
  arriving checking : Pc
  sleeping : ℕ → Pc
  woken fuelled gone : Pc

pub record Memory : Type 0 where
  pub fuel : ℕ
  pub locked : Bool
  pub broadcasts : ℕ

-- `pthread_cond_wait` gives the mutex free, and ends behind a later broadcast.
pub data Move (m : Memory) : Pc → Memory → Pc → Type 0 where
  lock_fill :
      {r : ℕ} → m.locked ≡ false → Move m (fill (suc r)) (record m { locked = true }) (filling r)
  fill_up : {r : ℕ} → Move m (filling r) (record m { fuel = m.fuel + 60 }) (filled r)
  unlock_fill : {r : ℕ} → Move m (filled r) (record m { locked = false }) (broadcasting r)
  broadcast :
      {r : ℕ} → Move m (broadcasting r) (record m { broadcasts = m.broadcasts + 1 }) (fill r)
  lock_car : m.locked ≡ false → Move m arriving (record m { locked = true }) checking
  cond_wait : m.fuel < 40 → Move m checking (record m { locked = false }) (sleeping m.broadcasts)
  wake : {t : ℕ} → t < m.broadcasts → Move m (sleeping t) m woken
  lock_again : m.locked ≡ false → Move m woken (record m { locked = true }) checking
  take_fuel : 40 ≤ m.fuel → Move m checking (record m { fuel = m.fuel - 40 }) fuelled
  unlock_car : Move m fuelled (record m { locked = false }) gone

-- POSIX lets `pthread_cond_wait` end without a broadcast as well.
pub data AnyMove (m : Memory) : Pc → Memory → Pc → Type 0 where
  program : {l l' : Pc} {m' : Memory} → Move m l m' l' → AnyMove m l m' l'
  spurious : {t : ℕ} → AnyMove m (sleeping t) m woken

abbrev pub started : ℕ → State Memory Pc
started cars = record {
  shared = record { fuel = 0; locked = false; broadcasts = 0 };
  threads = replicate cars arriving ++ (fill 5 ∷ []);
}

abbrev pub cv_demo : State Memory Pc
cv_demo = started 4
