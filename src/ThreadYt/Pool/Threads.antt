-- ===== src/ThreadYt/Pool/Threads.antt =====
-- The threads of `thread_pool.c`, and what holds of them together.
use sysprog_solutions.ThreadYt.Pool.{Task, Queue, submit_task, first_task}
use sysprog_solutions.Common.{
  ℕ, [], ◌∷◌, some, true, false, Bool, ◌<◌, List, ◌≡◌, ◌-◌, replicate, ◌+◌, ◌++◌, ◌≤◌, length,
  total,
}
use sysprog_solutions.ThreadYt.System.{State, bit}
use sysprog_solutions.ThreadYt.Pool.Contents.{IsQueue}

-- `main`: at its loop and behind it, with the lock, behind the store, and before the signal. A
-- worker: before the lock, at its `while`, in `pthread_cond_wait`, before it has the lock again, with
-- a task and the lock, and at `executeTask`.
pub data Pc : Type 0 where
  submit submitting submitted signalling : Pc
  starting checking waiting woken : Pc
  took executing : Task → Pc

-- With the variables: the threads in `pthread_cond_wait`, those of them that were signalled, the tasks
-- that `main` has not made, and the tasks that the workers took, in order.
pub record Memory : Type 0 where
  pub queue : Queue
  pub locked : Bool
  pub waiters : ℕ
  pub signalled : ℕ
  pub todo : List Task
  pub taken : List Task

pub data Move (m : Memory) : Pc → Memory → Pc → Type 0 where
  lock_submit :
      {t : Task} {ts : List Task}
      → m.todo ≡ t ∷ ts
      → m.locked ≡ false
      → Move m submit (record m { locked = true }) submitting
  put :
      {t : Task} {ts : List Task} {q : Queue}
      → m.todo ≡ t ∷ ts
      → submit_task t m.queue ≡ some q
      → Move m submitting (record m { queue = q; todo = ts }) submitted
  unlock_submit : Move m submitted (record m { locked = false }) signalling
  signal_one :
      0 < m.waiters
      → Move m signalling (record m { waiters = m.waiters - 1; signalled = m.signalled + 1 }) submit
  signal_none : m.waiters ≡ 0 → Move m signalling m submit
  lock_worker : m.locked ≡ false → Move m starting (record m { locked = true }) checking
  cond_wait :
      m.queue.count ≡ 0
      → Move m checking (record m { locked = false; waiters = m.waiters + 1 }) waiting
  wake : 0 < m.signalled → Move m waiting (record m { signalled = m.signalled - 1 }) woken
  lock_again : m.locked ≡ false → Move m woken (record m { locked = true }) checking
  get :
      {t : Task} {q : Queue}
      → 0 < m.queue.count
      → first_task m.queue ≡ some (t, q)
      → Move m checking (record m { queue = q; taken = m.taken ++ (t ∷ []) }) (took t)
  unlock_worker : {t : Task} → Move m (took t) (record m { locked = false }) (executing t)
  execute_task : {t : Task} → Move m (executing t) m starting

-- POSIX lets `pthread_cond_wait` end without a signal as well.
pub data AnyMove (m : Memory) : Pc → Memory → Pc → Type 0 where
  program : {l l' : Pc} {m' : Memory} → Move m l m' l' → AnyMove m l m' l'
  spurious : 0 < m.waiters → AnyMove m waiting (record m { waiters = m.waiters - 1 }) woken

abbrev pub started : ℕ → List Task → List Task → State Memory Pc
started workers cells todo = record {
  shared = record {
    queue = record { cells = cells; count = 0 };
    locked = false;
    waiters = 0;
    signalled = 0;
    todo = todo;
    taken = [];
  };
  threads = submit ∷ replicate workers starting;
}

abbrev pub makes : Pc → ℕ
makes submit = 1
makes submitting = 1
makes submitted = 1
makes signalling = 1
makes _ = 0

abbrev pub stores : Pc → ℕ
stores submitting = 1
stores _ = 0

abbrev pub signals : Pc → ℕ
signals submitted = 1
signals signalling = 1
signals _ = 0

abbrev pub awake : Pc → ℕ
awake starting = 1
awake checking = 1
awake woken = 1
awake (took t) = 1
awake (executing t) = 1
awake _ = 0

abbrev pub sleeps : Pc → ℕ
sleeps waiting = 1
sleeps _ = 0

abbrev pub in_section : Pc → ℕ
in_section submitting = 1
in_section submitted = 1
in_section checking = 1
in_section (took t) = 1
in_section _ = 0

pub record Counts (workers : ℕ) (s : State Memory Pc) : Type 0 where
  pub mutex : total in_section s.threads ≡ bit s.shared.locked
  pub main : total makes s.threads ≡ 1
  pub team : total awake s.threads + total sleeps s.threads ≡ workers
  pub asleep : total sleeps s.threads ≡ s.shared.waiters + s.shared.signalled
  pub pending : total stores s.threads ≤ length s.shared.todo
  pub room : s.shared.queue.count + length s.shared.todo ≤ 256

-- A task that waits has a signal to come, a thread that was signalled, or a worker that is awake.
abbrev pub Heard : State Memory Pc → Type 0
Heard s =
    0 < s.shared.queue.count
    → 0 < total signals s.threads + s.shared.signalled + total awake s.threads

-- The tasks are taken in the order in which they were made.
pub record Order (made : List Task) (q : Queue) (taken todo : List Task) : Type 0 where
  pub tasks : List Task
  pub queue : IsQueue q tasks
  pub order : taken ++ (tasks ++ todo) ≡ made
