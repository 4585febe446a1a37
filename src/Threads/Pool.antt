-- ===== src/Threads/Pool.antt =====
-- The pool, its queue and its tasks, each function of src/threads/thread_pool.c under its name. A
-- task is a position on a heap, where a freed one leaves `none`. Functions and arguments are numbers;
-- `call` is the pointer that a task's function returns.
use sysprog_solutions.Common.{
  ◌>>=◌, ◌>>◌, ℕ, Bool, if◌then◌else◌, get_elem?, pure, none, Option, Cmd, suc, List, ltb, Outcome,
  raise, false, ok, length, set, some, ◌||◌, ◌+◌, err, ◌==◌, zero, ◌++◌, ◌∷◌, [], true, ◌-◌, not,
}

abbrev pub tpool_max_threads : ℕ
tpool_max_threads = 20

abbrev pub tpool_max_tasks : ℕ
tpool_max_tasks = 100000

pub data ErrorCode : Type 0 where
  invalid_argument too_many_tasks has_tasks task_not_pushed task_in_pool not_implemented : ErrorCode

-- What a function returns: 0 or an error.
pub data Status : Type 0 where
  success : Status
  failure : ErrorCode → Status

-- A pointer that a function returns: NULL, one that was freed, a fresh `int` from `malloc`, or any
-- other, as the `&arg` of a client.
pub data Value : Type 0 where
  no_value freed_value elsewhere : Value
  allocated : ℕ → Value

-- An `int`.
pub data ℤ : Type 0 where
  pos negsuc : ℕ → ℤ

pub record ThreadTask : Type 0 where
  pub function : ℕ
  pub arg : ℕ
  pub ret : Value
  pub is_finished : Bool
  pub is_running : Bool

-- `queue` has `queue_size` entries, `none` where NULL.
pub record ThreadPool : Type 0 where
  pub queue : ℕ → Option ℕ
  pub threads_size : ℕ
  pub thread_count : ℕ
  pub queue_size : ℕ
  pub queue_head : ℕ
  pub queue_tail : ℕ
  pub queue_count : ℕ

-- The caller's pointer to the pool.
pub data PoolPointer : Type 0 where
  null freed : PoolPointer
  live : ThreadPool → PoolPointer

pub record System : Type 0 where
  pub pool : PoolPointer
  pub tasks : List (Option ThreadTask)

-- Undefined behaviour, a failed `assert`, or a wait that does not end.
pub data Trap : Type 0 where
  fault abort blocked : Trap

abbrev pub Call : Type 0 → Type 0
Call A = Cmd Trap System A

abbrev pub new_pool : ℕ → ThreadPool
new_pool n = record {
  queue = λ _. none;
  threads_size = n;
  thread_count = 0;
  queue_size = tpool_max_tasks;
  queue_head = 0;
  queue_tail = 0;
  queue_count = 0;
}

abbrev gt_int : ℤ → ℕ → Bool
gt_int (pos n) m = ltb m n
gt_int (negsuc n) m = false

abbrev lt_int : ℤ → ℕ → Bool
lt_int (pos n) m = ltb n m
lt_int (negsuc n) m = true

-- The size of the array of threads, from a number that is not negative.
abbrev size_of : ℤ → ℕ
size_of (pos n) = n
size_of (negsuc n) = 0

unfoldable pub thread_pool_new : ℤ → Call Status
thread_pool_new max_thread_count s =
    if gt_int max_thread_count tpool_max_threads || lt_int max_thread_count 1
    then ok (failure invalid_argument, s)
    else ok (success, record s { pool = live (new_pool (size_of max_thread_count)) })

abbrev pub in_pool : Trap → PoolPointer → System → Outcome Trap (ThreadPool × System)
in_pool e null s = err e
in_pool e freed s = err fault
in_pool e (live p) s = ok (p, s)

-- Reads through the pointer to the pool.
abbrev pub load_pool : Call ThreadPool
load_pool s = in_pool fault s.pool s

-- Reads behind `assert(pool != NULL)`.
abbrev pub asserted_pool : Call ThreadPool
asserted_pool s = in_pool abort s.pool s

abbrev pub store_pool : PoolPointer → Call (Unit {0})
store_pool p s = ok (tt, record s { pool = p })

abbrev pub in_task : Option (Option ThreadTask) → System → Outcome Trap (ThreadTask × System)
in_task (some (some t)) s = ok (t, s)
in_task _ s = err fault

abbrev pub load_task : ℕ → Call ThreadTask
load_task a s = in_task (get_elem? s.tasks a) s

abbrev pub store_task : ℕ → Option ThreadTask → Call (Unit {0})
store_task a t s = ok (tt, record s { tasks = set s.tasks a t })

-- The loop of `thread_task_execute`: `created i` says whether `pthread_create` made thread `i`.
unfoldable pub create_threads : (ℕ → Bool) → ℕ → ℕ → ℕ
create_threads created zero i = 0
create_threads created (suc n) i =
    let rest = create_threads created n (i + 1) in if created i then rest + 1 else rest

-- Where a thread is missing, the pool is freed and then read.
unfoldable pub thread_task_execute : (ℕ → Bool) → Call Status
thread_task_execute created = do
  p ← load_pool
  let count = p.thread_count + create_threads created p.threads_size 0
  store_pool (live (record p { thread_count = count }))
  if count == p.threads_size
      then pure success
      else (do store_pool freed; lost ← load_pool; pure (failure invalid_argument))

unfoldable pub thread_pool_thread_count : Call ℕ
thread_pool_thread_count = do p ← asserted_pool; pure p.thread_count

-- The `assert` lets a `pool` that points to NULL through. The queue is not looked at.
unfoldable pub thread_pool_delete : Call Status
thread_pool_delete = do p ← load_pool; store_pool null; pure success

abbrev pub write_queue : ℕ → ThreadPool → Call (Unit {0})
write_queue task p =
    if ltb p.queue_tail p.queue_size
    then store_pool (
        live (record p {
          queue = λ i. if i == p.queue_tail then some task else p.queue i;
          queue_tail = p.queue_tail + 1;
          queue_count = p.queue_count + 1;
        }))
    else raise fault

unfoldable pub thread_pool_push_task : ℕ → Call Status
thread_pool_push_task task = do
  p ← asserted_pool
  if (p.thread_count + 1) == tpool_max_tasks
      then pure (failure too_many_tasks)
      else (do write_queue task p; pure success)

unfoldable pub thread_task_new : ℕ → ℕ → Call ℕ
thread_task_new function arg s =
    let t : ThreadTask = record {
      function = function;
      arg = arg;
      ret = no_value;
      is_finished = false;
      is_running = false;
    } in
    ok (length s.tasks, record s { tasks = s.tasks ++ some t ∷ [] })

unfoldable pub thread_task_is_finished : ℕ → Call Bool
thread_task_is_finished task = do t ← load_task task; pure t.is_finished

unfoldable pub thread_task_is_running : ℕ → Call Bool
thread_task_is_running task = do t ← load_task task; pure t.is_running

abbrev pub taken : Option ℕ → Call ℕ
taken none = raise fault
taken (some r) = pure r

-- `*test = *((int*)task->ret); free(task->ret);` faults but on memory from `malloc`.
abbrev pub taken_value : Value → Call ℕ
taken_value (allocated r) = pure r
taken_value _ = raise fault

-- The result is copied, and the memory that it came in is freed. A task that is not done is waited
-- for.
abbrev pub join_task : ℕ → ThreadTask → Call (Status × Option ℕ)
join_task task t = if not t.is_finished || t.is_running then raise blocked else do
  r ← taken_value t.ret
  store_task task (some (record t { ret = freed_value }))
  pure (success, some r)

unfoldable pub thread_task_join : Option ℕ → Call (Status × Option ℕ)
thread_task_join none = pure (failure invalid_argument, none)
thread_task_join (some task) = do t ← load_task task; join_task task t

unfoldable pub thread_task_delete : ℕ → Call Status
thread_task_delete task = do
  t ← load_task task
  if t.is_finished then (do store_task task none; pure success) else pure (failure has_tasks)

unfoldable pub thread_task_detach : ℕ → Call Status
thread_task_detach task = pure (failure not_implemented)

-- The entry at the head: out of bounds, or NULL, it is a fault.
abbrev pub read_queue : ThreadPool → Call ℕ
read_queue p = if ltb p.queue_head p.queue_size then taken (p.queue p.queue_head) else raise fault

module _ (call : ℕ → ℕ → Value) where
  -- What a worker does with the task that it took, with the mutex held. The function of the task
  -- uses none of the pool's memory.
  unfoldable pub run_task : ℕ → Call (Unit {0})
  run_task task = do
    t ← load_task task
    store_task task (some (record t { is_running = true }))
    let res = call t.function t.arg
    store_task task (some (record t { ret = res; is_finished = true; is_running = false }))

  -- A round of the loop of `process_task`, between lock and unlock.
  unfoldable pub process_round : Call (Unit {0})
  unfolding run_task
  process_round = do
    p ← load_pool
    if ltb 0 p.queue_count
        then (do
          task ← read_queue p
          store_pool
              (live (record p { queue_head = p.queue_head + 1; queue_count = p.queue_count - 1 }))
          run_task task)
        else pure tt

  -- `rounds` rounds of the loop: a thread ends behind 10^9 of them.
  unfoldable pub process_task : ℕ → Call (Unit {0})
  process_task zero = pure tt
  process_task (suc rounds) = do process_round; process_task rounds

  -- The threads end behind their last round: `left` rounds are left to them at the call, and none
  -- behind it. A pool without threads is not waited for.
  unfoldable pub thread_pool_join : ℕ → Call ℕ
  unfolding process_task
  thread_pool_join left = do
    p ← load_pool
    if p.thread_count == 0 then pure left else (do process_task left; pure 0)
