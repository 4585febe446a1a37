-- ===== src/ThreadYt/Tests.antt =====
-- Runs of the programs of src/thread_yt, and their theorems in those runs.
use sysprog_solutions.Common.{
  ℕ, [], ◌∷◌, refl, some, true, false, List, ◌≡◌, ◌+◌, ◌≤◌, replicate, ◌*◌, ◌⊎◌, arith, ◌<◌, total,
}
use sysprog_solutions.ThreadYt.Pool.Threads.{Order}
use sysprog_solutions.ThreadYt.System.{State, Reach, Step, later, begin, pick}
use sysprog_solutions.ThreadYt.Fuel.Progress.{unended}
use sysprog_solutions.ThreadYt.Deadlock.{ended}
use sysprog_solutions.ThreadYt.Pool.Done.{busy}
use sysprog_solutions.Threads.Progress.{begin}
use sysprog_solutions.ThreadYt.Trylock.Chefs.{present}
use sysprog_solutions.ThreadYt.Trylock.Waiting.{at_first}
use sysprog_solutions.ThreadYt.Semaphore
use sysprog_solutions.ThreadYt.ProdCons
use sysprog_solutions.ThreadYt.Fuel
use sysprog_solutions.ThreadYt.Deadlock
use sysprog_solutions.ThreadYt.Trylock
use sysprog_solutions.ThreadYt.Pool
use sysprog_solutions.ThreadYt.Recursive
use sysprog_solutions.ThreadYt.Primes.{primes, sum_of, main, main-sum_of}
use sysprog_solutions.ThreadYt.Recursive.Filled.{in_section}

-- Two threads of `thread_semaphore.c` are behind `sem_wait`.
both_inside : Reach Semaphore.Move Semaphore.semaphore_demo 2 (record {
  shared = 0;
  threads = Semaphore.inside ∷ Semaphore.waiting ∷ Semaphore.waiting ∷ Semaphore.inside ∷ [];
})
both_inside =
    later (later begin (pick 0 refl (Semaphore.sem_wait (omega arith))))
      (pick 3 refl (Semaphore.sem_wait (omega arith)))

Reach-bounded_example :
    (2 ≤ 2)
    × (2 + 2 ≤ 0 + 4)
    × ((2 ≡ 2 * 4)
        ⊎ ((2 < 2 * 4)
            × (t : State ℕ Semaphore.Pc) × Step Semaphore.Move
                (record {
                  shared = 0;
                  threads =
                      Semaphore.inside ∷ Semaphore.waiting ∷ Semaphore.waiting ∷ Semaphore.inside
                      ∷ [];
                })
                t))
unfolding total
Reach-bounded_example = Semaphore.Reach-bounded 2 4 (omega arith) both_inside

-- A producer has the number 7 and a free place.
abbrev producing : State ProdCons.Memory ProdCons.Pc
producing = record {
  shared = record {
    sem_empty = 9;
    sem_full = 0;
    locked = true;
    buffer = replicate 10 0;
    count = 0;
  };
  threads = ProdCons.consume ∷ ProdCons.adding 7 ∷ replicate 6 ProdCons.produce;
}

produced : Reach ProdCons.Move ProdCons.prod_cons_demo 3 producing
produced =
    later
      (later (later begin (pick 1 refl (ProdCons.rand {x = 7} (omega arith))))
        (pick 1 refl (ProdCons.wait_empty (omega arith))))
      (pick 1 refl (ProdCons.lock_add refl))

Reach-move_example :
    (0 + 1 ≤ 10)
    × (0 ≤ 0)
    × (0 ≤ 10)
    × (1 ≤ 1)
    × (t : State ProdCons.Memory ProdCons.Pc) × Step ProdCons.Move producing t
unfolding total
Reach-move_example = ProdCons.Safety.Reach-move 7 (replicate 10 0) (omega arith) refl produced

-- The first car of `thread_cv.c` waits.
abbrev one_waits : State Fuel.Memory Fuel.Pc
one_waits = record {
  shared = record { fuel = 0; locked = false; broadcasts = 0 };
  threads = Fuel.sleeping 0 ∷ Fuel.arriving ∷ Fuel.arriving ∷ Fuel.arriving ∷ Fuel.fill 5 ∷ [];
}

car_waits : Reach Fuel.AnyMove Fuel.cv_demo 2 one_waits
car_waits =
    later (later begin (pick 0 refl (Fuel.program (Fuel.lock_car refl))))
      (pick 0 refl (Fuel.program (Fuel.cond_wait (omega arith))))

Reach-ended_or_moves_example :
    ((total unended one_waits.threads ≡ 0) × (0 + 40 * 4 ≡ 300))
    ⊎ ((t : State Fuel.Memory Fuel.Pc) × Step Fuel.Move one_waits t)
Reach-ended_or_moves_example = Fuel.Progress.Reach-ended_or_moves 4 (omega arith) car_waits

-- `main` of `thread_pool.c` has the lock, and a task to store.
abbrev job : Pool.Task
job = record { a = 3; b = 4 }

abbrev cells : List Pool.Task
cells = replicate 256 (record { a = 0; b = 0 })

abbrev storing : State Pool.Threads.Memory Pool.Threads.Pc
storing = record {
  shared = record {
    queue = record { cells = cells; count = 0 };
    locked = true;
    waiters = 0;
    signalled = 0;
    todo = job ∷ [];
    taken = [];
  };
  threads = Pool.Threads.submitting ∷ replicate 4 Pool.Threads.starting;
}

main_locks : Reach Pool.Threads.AnyMove (Pool.Threads.started 4 cells (job ∷ [])) 1 storing
main_locks = later begin (pick 0 refl (Pool.Threads.program (Pool.Threads.lock_submit refl refl)))

Reach-done_or_move_example :
    Order (job ∷ []) storing.shared.queue [] (job ∷ [])
    × ((([] ≡ job ∷ []) × (total busy storing.threads ≡ 0))
        ⊎ ((t : State Pool.Threads.Memory Pool.Threads.Pc) × Step Pool.Threads.Move storing t))
Reach-done_or_move_example =
    Pool.Done.Reach-done_or_move 4 (job ∷ []) cells (omega arith) refl (omega arith) main_locks

-- Two of the eight threads of `thread_deadlock.c` wait for each other.
abbrev crossed : State Deadlock.Memory Deadlock.Pc
crossed = record {
  shared = record { fuel = 50; water = 10; fuel_locked = true; water_locked = true };
  threads = Deadlock.has_fuel ∷ Deadlock.has_water ∷ replicate 6 Deadlock.start;
}

crossing : Reach Deadlock.Move Deadlock.deadlock_demo 2 crossed
crossing =
    later (later begin (pick 0 refl (Deadlock.even_fuel refl)))
      (pick 1 refl (Deadlock.odd_water refl))

Reach-crossed_example :
    (some Deadlock.has_fuel ≡ some Deadlock.has_fuel)
    × (some Deadlock.has_water ≡ some Deadlock.has_water)
    × (50 ≡ 50 + 50 * 0)
unfolding total
Reach-crossed_example = Deadlock.Outcome.Reach-crossed 8 0 1 crossing refl refl begin

-- A chef of `thread_trylock.c` takes the first stove, and with 19 of its fuel gives it back.
abbrev at_work : State Trylock.Memory Trylock.Pc
at_work = record {
  shared = record {
    stove_fuel = 81 ∷ 100 ∷ 100 ∷ 100 ∷ [];
    locked = true ∷ false ∷ false ∷ false ∷ [];
  };
  threads = Trylock.leaving 0 ∷ replicate 9 (Trylock.trying 0);
}

works : Reach Trylock.Move Trylock.trylock_demo 2 at_work
works =
    later (later begin (pick 0 refl (Trylock.try_free refl)))
      (pick 0 refl (Trylock.cook {fuel = 100} {need = 19} refl (omega arith) (omega arith)))

Reach-gone_or_moves_example :
    (1 ≤ 1)
    × ((total present at_work.threads ≡ 0)
        ⊎ ((t : State Trylock.Memory Trylock.Pc) × Step Trylock.Move at_work t))
unfolding total
Reach-gone_or_moves_example = Trylock.Chefs.Reach-gone_or_moves 10 0 works

-- A chef has waited, and the first stove is free again.
abbrev all_full : State Trylock.Memory Trylock.Pc
all_full = record {
  shared = record { stove_fuel = 81 ∷ 81 ∷ 81 ∷ 81 ∷ []; locked = false ∷ true ∷ true ∷ true ∷ [] };
  threads = Trylock.waiting ∷ [];
}

Reach-not_first_example : (l : Trylock.Pc) × (some (Trylock.trying 1) ≡ some l) × (at_first l ≡ 0)
Reach-not_first_example =
    Trylock.Waiting.Reach-not_first 0 {s = all_full} refl
      (later begin (pick 0 refl Trylock.wait_over))

-- The first thread of `thread_recursive_mutex.c` holds two locks.
abbrev two_locks : State Recursive.Memory Recursive.Pc
two_locks = record {
  shared = record { fuel = 50; depth = 2 };
  threads = Recursive.locking 2 ∷ Recursive.locking 0 ∷ [];
}

locked_twice : Reach Recursive.Move (Recursive.started 2) 2 two_locks
locked_twice =
    later (later begin (pick 0 refl (Recursive.lock_first refl)))
      (pick 0 refl (Recursive.lock_again (omega arith)))

Reach-filled_or_moves_example :
    (total in_section two_locks.threads ≤ 1)
    × (((2 ≡ 12 * 2) × (two_locks.shared.depth ≡ 0) × (two_locks.shared.fuel ≡ 50 + 50 * 2))
        ⊎ ((2 < 12 * 2)
            × (u : State Recursive.Memory Recursive.Pc) × Step Recursive.Move two_locks u))
Reach-filled_or_moves_example = Recursive.Filled.Reach-filled_or_moves 2 locked_twice

main_129 : main primes ≡ some 129
unfolding main
main_129 = refl

main-sum_of_example : main primes ≡ some (sum_of primes)
unfolding total
main-sum_of_example = main-sum_of primes refl (omega arith)
