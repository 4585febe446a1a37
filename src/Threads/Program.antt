-- ===== src/Threads/Program.antt =====
-- `test_ret` and the `main` of src/threads/thread_pool.c: a task from its creation to its result.
use native.Mathlib.Nat.{mul-le-mul_left, mul-le-mul_right}
use sysprog_solutions.Common.{
  ℕ, zero, suc, [], ◌∷◌, refl, some, none, true, false, Bool, ok, ◌>>=◌, ◌>>◌, ◌*◌, ◌≡◌, ◌<◌, ◌≤◌,
  Option, pure, ◌++◌, ◌^◌, arith, length, get_elem?-end, set-append,
}
use sysprog_solutions.Threads.Pool.{
  allocated, no_value, freed_value, pos, thread_pool_join, Value, ThreadPool, process_task,
  thread_pool_new, ThreadTask, thread_task_new, System, thread_pool_push_task, thread_task_join,
  new_pool, live, thread_task_delete, thread_task_execute, thread_pool_delete, Call, null,
}
use sysprog_solutions.Threads.Queue.{
  Queued, pushed, thread_pool_push_task-Queued, new_pool-Queued, popped, popped-Queued,
}
use sysprog_solutions.Threads.Rounds.{process_round_idle, process_round-finished, finished}
use sysprog_solutions.Threads.Start.{thread_task_execute_all}

-- The square of the argument, in an `int` from `malloc`. It fits up to 46340.
abbrev pub test_ret : ℕ → ℕ → Value
test_ret function arg = allocated (arg * arg)

-- `main` with `arg`, where the workers do `rounds` rounds before the first join returns and have
-- `left` rounds then, some or all of which they do in `thread_pool_join`; those that remain at the
-- end come behind `thread_pool_delete`. `free(res_arg)` frees what the join of the task allocated.
pub main : (ℕ → Bool) → ℕ → ℕ → ℕ → Call (Option ℕ)
unfolding thread_pool_new thread_task_new thread_pool_push_task thread_task_execute process_task
    thread_task_join thread_task_delete thread_pool_join thread_pool_delete
main created rounds left arg = do
  res ← thread_pool_new (pos 4)
  task ← thread_task_new 0 arg
  pushed ← thread_pool_push_task task
  executed ← thread_task_execute created
  process_task test_ret rounds
  joined ← thread_task_join (some task)
  deleted ← thread_task_delete task
  remaining ← thread_pool_join test_ret left
  closed ← thread_pool_delete
  process_task test_ret remaining
  pure joined.1

process_task-idle :
    (call : ℕ → ℕ → Value) (k : ℕ) (p : ThreadPool) (s : System)
    → s.pool ≡ live p
    → Queued p []
    → process_task call k s ≡ ok (tt, s)
unfolding process_task
process_task-idle call zero p s at w = refl
process_task-idle call (suc k) p s at w =
    rw (process_round_idle call p s at w) (process_task-idle call k p s at w)

abbrev new_task : ℕ → ThreadTask
new_task arg = record {
  function = 0;
  arg = arg;
  ret = no_value;
  is_finished = false;
  is_running = false;
}

-- The pool of `main` with its task, all threads running.
abbrev ready : ℕ → ThreadPool
ready task = record (pushed (new_pool 4) task) { thread_count = 4 }

ready-Queued : (task : ℕ) → Queued (ready task) (task ∷ [])
ready-Queued task =
    let w =
      (thread_pool_push_task-Queued (new_pool 4) [] task
        (record { pool = live (new_pool 4); tasks = [] }) refl (new_pool-Queued 4)
        (omega arith)).1 in
    record {
      counted = w.counted;
      span = w.span;
      entries = w.entries;
      size = w.size;
      inside = w.inside;
      threads = omega arith;
    }

-- Where all threads are created, `main` with an argument of 46340 at most ends with its square as
-- the result of the task, whatever was on the heap before, however many rounds, one or more, the
-- workers do before the join of the task, and however many are left to them then: they do them before
-- `thread_pool_delete`, and find no task. At the end the task is freed, and the pool is.
pub main_square :
    (created : ℕ → Bool) (rounds left arg : ℕ) (s : System)
    → ((j : ℕ) → j < 4 → created j ≡ true)
    → 0 < rounds
    → arg ≤ 46340
    → (main created rounds left arg s
        ≡ ok (some (arg * arg), record { pool = null; tasks = s.tasks ++ (none ∷ []) }))
      × (arg * arg < 2 ^ 31)
unfolding main thread_pool_new thread_task_new process_task thread_task_join thread_task_delete
    thread_pool_join thread_pool_delete
main_square created zero left arg s all some_round small = absurd (omega arith)
main_square created (suc k) left arg s all some_round small =
    let a = length s.tasks in
    let heap = λ (t : Option ThreadTask). s.tasks ++ (t ∷ []) in
    let started : System = record {
      pool = live (pushed (new_pool 4) a);
      tasks = heap (some (new_task arg));
    } in
    let executed = thread_task_execute_all created (pushed (new_pool 4) a) started refl refl all in
    let running : System = record { pool = live (ready a); tasks = heap (some (new_task arg)) } in
    let round =
      process_round-finished test_ret (ready a) a [] running (new_task arg) refl (ready-Queued a)
        (get_elem?-end s.tasks (some (new_task arg))) in
    let stored = λ (t u : Option ThreadTask). set-append s.tasks t u [] in
    let done : ThreadTask = finished test_ret (new_task arg) in
    let read : ThreadTask = record done { ret = freed_value } in
    let served : System = record { pool = live (popped (ready a)); tasks = heap (some done) } in
    let idle =
      process_task-idle test_ret k (popped (ready a)) served refl
        (popped-Queued (ready a) a [] (ready-Queued a)) in
    let over : System = record { pool = live (popped (ready a)); tasks = heap none } in
    let idle' =
      process_task-idle test_ret left (popped (ready a)) over refl
        (popped-Queued (ready a) a [] (ready-Queued a)) in
    (
      rw
          (
            executed,
            round,
            stored (some (new_task arg)) (some done),
            idle,
            get_elem?-end s.tasks (some done),
            stored (some done) (some read),
            get_elem?-end s.tasks (some read),
            stored (some read) none,
            idle',
          )
          refl,
      omega (arith, mul-le-mul_left arg small, mul-le-mul_right 46340 small),
    )
