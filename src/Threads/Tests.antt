-- ===== src/Threads/Tests.antt =====
-- Runs of the thread pool, and the theorems of Threads at concrete systems.
use sysprog_solutions.Threads.Program.{main, main_square}
use sysprog_solutions.Common.{
  replicate, ◌≢◌, ℕ, ◌>>=◌, ◌+◌, ◌≡◌, List, Ensures, none, Option, [], true, ok, err, refl, ◌++◌,
  some, ◌∷◌, false, arith, ◌<◌, ◌*◌, ◌^◌, ◌≤◌, ◌==◌, ◌⊎◌,
}
use sysprog_solutions.Threads.Pool.{
  allocated, no_value, Value, thread_task_detach, thread_task_new, ThreadTask,
  thread_task_is_finished, System, thread_pool_delete, thread_pool_thread_count, new_pool, null,
  thread_task_is_running, success, live, failure, fault, thread_task_join, not_implemented,
  process_task, process_round, blocked, pos, thread_pool_new, thread_task_execute, invalid_argument,
}
use sysprog_solutions.Threads.Queue.{Queued, pushed, new_pool-Queued, thread_pool_push_task-Queued}
use sysprog_solutions.Threads.Schedule.{
  pushes, Event, Holds, ran, round, waiting, run_schedule, push, run_schedule_fifo,
}
use sysprog_solutions.Threads.Rounds.{AllLive, run_all}
use sysprog_solutions.Threads.Start.{Started, Outside, thread_task_execute-thread_pool_new}
use sysprog_solutions.Threads.Life.{process_task-Holds, thread_task_join-process_round}
use sysprog_solutions.Threads.Progress.{
  thread_task_join-Reach, marked, left, step, begin, start, store, mark,
}

-- The function `f` adds `f` to its argument.
abbrev plus : ℕ → ℕ → Value
plus f x = allocated (f + x)

abbrev task : ℕ → ThreadTask
task x = record { function = 10; arg = x; ret = no_value; is_finished = false; is_running = false }

abbrev heap : List (Option ThreadTask)
heap = some (task 1) ∷ some (task 2) ∷ []

abbrev idle : System
idle = record { pool = live (new_pool 2); tasks = heap }

abbrev one : System
one = record idle { pool = live (pushed (new_pool 2) 0) }

new_task_run :
    thread_task_new 10 1 (record { pool = null; tasks = [] })
    ≡ ok (0, record { pool = null; tasks = some (task 1) ∷ [] })
unfolding thread_task_new
new_task_run = refl

delete_run : thread_pool_delete one ≡ ok (success, record one { pool = null })
unfolding thread_pool_delete
delete_run = refl

count_run : thread_pool_thread_count one ≡ ok (0, one)
unfolding thread_pool_thread_count
count_run = refl

flags_run :
    (thread_task_is_finished 0 one ≡ ok (false, one))
    × (thread_task_is_running 0 one ≡ ok (false, one))
unfolding thread_task_is_finished thread_task_is_running
flags_run = (refl, refl)

detach_run : thread_task_detach 0 one ≡ ok (failure not_implemented, one)
unfolding thread_task_detach
detach_run = refl

one-Queued : Queued (pushed (new_pool 2) 0) (0 ∷ [])
one-Queued =
    (thread_pool_push_task-Queued (new_pool 2) [] 0 idle refl (new_pool-Queued 2) (omega arith)).1

idle-Holds : Holds [] heap 0 idle
idle-Holds = record {
  pool = new_pool 2;
  pool_at = refl;
  queued = new_pool-Queued 2;
  heap = refl;
  tail_at = refl;
}

one-Holds : Holds (0 ∷ []) heap 1 one
one-Holds = record {
  pool = pushed (new_pool 2) 0;
  pool_at = refl;
  queued = one-Queued;
  heap = refl;
  tail_at = refl;
}

-- One task, pushed 100000 times.
abbrev worn : List Event
worn = replicate 100000 (push 0)

process_task-Holds_example :
    Ensures (λ _ s'. Holds [] (run_all plus (0 ∷ []) heap) 1 s') (λ _. ⊥) (process_task plus 3 one)
unfolding AllLive
process_task-Holds_example =
    process_task-Holds plus 3 (0 ∷ []) heap 1 one one-Holds ((task 1, refl), tt) (omega arith)

thread_task_join-process_round_example :
    Ensures
      (λ r s'. (r ≡ (success, some 11)) × (thread_task_join (some 0) s' ≡ err fault))
      (λ _. ⊥)
      ((process_round plus >>= λ _. thread_task_join (some 0)) one)
thread_task_join-process_round_example =
    thread_task_join-process_round plus (pushed (new_pool 2) 0) 0 [] one (task 1) refl one-Queued
      refl

-- Two pushes, and three rounds around them.
abbrev events : List Event
events = round ∷ push 1 ∷ push 0 ∷ round ∷ round ∷ []

run_schedule_fifo_example :
    Ensures
      (λ _ s'. Holds (waiting events []) (run_all plus (ran events []) heap) 2 s')
      (λ _. ⊥)
      (run_schedule plus events idle)
    × (ran events [] ++ waiting events [] ≡ 1 ∷ 0 ∷ [])
unfolding AllLive pushes
run_schedule_fifo_example =
    run_schedule_fifo plus events [] heap 0 idle idle-Holds ((task 2, refl), ((task 1, refl), tt))
      (omega arith)

abbrev marked_task : ThreadTask
marked_task = record (task 1) { is_running = true; ret = allocated 11; is_finished = true }

abbrev midway : System
midway = record idle { tasks = some marked_task ∷ [] }

thread_task_join-Reach_example :
    Ensures
      (λ x _. (marked ≡ left) × (x ≡ (success, some 11)))
      (λ e. (e ≡ blocked) × (marked ≢ left))
      (thread_task_join (some 0) midway)
thread_task_join-Reach_example =
    thread_task_join-Reach plus (task 1) marked_task marked 0 11 midway refl refl
      (step (step (step begin start) store) mark) refl

main_square_example :
    (main (λ _. true) 3 5 10 (record { pool = null; tasks = [] })
      ≡ ok (some 100, record { pool = null; tasks = none ∷ [] }))
    × (10 * 10 < 2 ^ 31)
main_square_example =
    main_square (λ _. true) 3 5 10 (record { pool = null; tasks = [] }) (λ j h. refl) (omega arith)
      (omega arith)

thread_task_execute-thread_pool_new_example :
    ((k : ℕ) × (pos 2 ≡ pos k)
      × (1 ≤ k)
      × (k ≤ 20)
      × Started
          (λ j. j == 0)
          k
          idle
          ((thread_pool_new (pos 2) >>= λ _. thread_task_execute (λ j. j == 0)) idle))
    ⊎ (Outside (pos 2) × (thread_pool_new (pos 2) idle ≡ ok (failure invalid_argument, idle)))
thread_task_execute-thread_pool_new_example =
    thread_task_execute-thread_pool_new (λ j. j == 0) (pos 2) idle
