-- ===== src/Threads/UnitTests.antt =====
-- src/threads/thread_pool_test.c, with `unit_check` and `unit_fail_if` of src/threads/unit.h.
use sysprog_solutions.Common.{
  ℕ, Bool, true, false, ◌==◌, if◌then◌else◌, ◌>>=◌, ◌>>◌, Cmd, Outcome, ok, err, pure, raise, ◌≡◌,
  refl, ◌+◌, get_elem?-end, some,
}
use sysprog_solutions.Threads.Pool.{
  pos, negsuc, no_value, Trap, Call, System, Status, success, failure, ErrorCode, invalid_argument,
  too_many_tasks, has_tasks, task_not_pushed, task_in_pool, not_implemented, tpool_max_threads,
  thread_pool_new, thread_pool_thread_count, thread_pool_delete, thread_task_new,
  thread_task_delete, thread_pool_push_task, null, ThreadTask,
}

-- `exit(-1)` at a check of a test, counted from 1, or before a check; or what stops the pool's code.
pub data Stop : Type 0 where
  check_failed : ℕ → Stop
  set_up_failed : Stop
  trapped : Trap → Stop

abbrev pub Test : Type 0 → Type 0
Test A = Cmd Stop System A

abbrev in_test : {A : Type 0} → Outcome Trap (A × System) → Outcome Stop (A × System)
in_test (ok p) = ok p
in_test (err e) = err (trapped e)

abbrev run : {A : Type 0} → Call A → Test A
run m s = in_test (m s)

-- The values of `thread_poool_errcode`.
abbrev error_number : ErrorCode → ℕ
error_number invalid_argument = 1
error_number too_many_tasks = 2
error_number has_tasks = 3
error_number task_not_pushed = 4
error_number task_in_pool = 5
error_number not_implemented = 6

abbrev number : Status → ℕ
number success = 0
number (failure e) = error_number e

abbrev unit_check : ℕ → Bool → Test (Unit {0})
unit_check n cond = if cond then pure tt else raise (check_failed n)

abbrev unit_fail_if : Bool → Test (Unit {0})
unit_fail_if cond = if cond then raise set_up_failed else pure tt

-- `unit_check(call == expected)`
abbrev check_status : ℕ → Call Status → Status → Test (Unit {0})
check_status n call expected = do r ← run call; unit_check n (number r == number expected)

abbrev check_count : ℕ → ℕ → Test (Unit {0})
check_count n expected = do r ← run thread_pool_thread_count; unit_check n (r == expected)

abbrev need : Call Status → Test (Unit {0})
need call = do r ← run call; unit_fail_if (if number r == 0 then false else true)

pub test_new : Test (Unit {0})
unfolding thread_pool_new thread_pool_thread_count thread_pool_delete
test_new = do
  check_status 1 (thread_pool_new (pos (tpool_max_threads + 1))) (failure invalid_argument)
  check_status 2 (thread_pool_new (pos 0)) (failure invalid_argument)
  check_status 3 (thread_pool_new (negsuc 0)) (failure invalid_argument)
  check_status 4 (thread_pool_new (pos 1)) success
  check_count 5 0
  check_status 6 thread_pool_delete success
  check_status 7 (thread_pool_new (pos tpool_max_threads)) success
  check_count 8 0
  check_status 9 thread_pool_delete success

-- `test_push` up to its second check, and what follows. The first one is of `thread_task_new`, which
-- only returns 0.
pub test_push : ℕ → ℕ → Test (Unit {0}) → Test (Unit {0})
unfolding thread_pool_new thread_task_new thread_task_delete
test_push task_incr_f arg others = do
  need (thread_pool_new (pos 3))
  t ← run (thread_task_new task_incr_f arg)
  check_status 2 (thread_task_delete t) success
  others

-- `test_thread_pool_delete` up to its first check, and what follows. The mutex `m`, which the task's
-- function waits for, is none of the pool's.
pub test_thread_pool_delete : ℕ → ℕ → Test (Unit {0}) → Test (Unit {0})
unfolding thread_pool_new thread_task_new thread_pool_push_task thread_pool_delete
test_thread_pool_delete task_lock_unlock_f m others = do
  need (thread_pool_new (pos 3))
  t ← run (thread_task_new task_lock_unlock_f m)
  need (thread_pool_push_task t)
  check_status 1 thread_pool_delete (failure has_tasks)
  others

-- The tests of thread_pool_test.c from any state of the system. All nine checks of `test_new` hold,
-- and it leaves the heap as it was and no pool. `test_push` exits at its second check, as
-- `thread_task_delete` refuses a task that was not pushed, and `test_thread_pool_delete` exits at its
-- first one, as `thread_pool_delete` takes a pool with a task.
test_new-test_push :
    (s : System) (function arg : ℕ) (others : Test (Unit {0}))
    → (test_new s ≡ ok (tt, record s { pool = null }))
      × (test_push function arg others s ≡ err (check_failed 2))
      × (test_thread_pool_delete function arg others s ≡ err (check_failed 1))
unfolding test_new test_push test_thread_pool_delete thread_pool_new thread_pool_thread_count
    thread_pool_delete thread_task_new thread_task_delete thread_pool_push_task
test_new-test_push s function arg others =
    let t : ThreadTask = record {
      function = function;
      arg = arg;
      ret = no_value;
      is_finished = false;
      is_running = false;
    } in
    (refl, rw (get_elem?-end s.tasks (some t)) refl, refl)
