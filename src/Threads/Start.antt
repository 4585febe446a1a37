-- ===== src/Threads/Start.antt =====
-- The start of a pool: `thread_pool_new` and `thread_task_execute` of src/threads/thread_pool.c.
use sysprog_solutions.Common.{
  Outcome, ℕ, ◌>>=◌, Bool, ◌≤◌, ◌<◌, arith, ◌≡◌, ◌+◌, ok, suc, false, true, Bool-cases, err, zero,
  inl, ==_self, ◌≢◌, [], refl, inr, ◌⊎◌, ◌==◌, ltb, ◌||◌, returns, Ensures,
}
use sysprog_solutions.Threads.Schedule.{Holds}
use sysprog_solutions.Threads.Pool.{
  Trap, Status, ℤ, pos, negsuc, thread_pool_new, create_threads, ThreadPool, System,
  thread_task_execute, live, success, new_pool, fault, failure, invalid_argument,
  thread_pool_thread_count,
}
use sysprog_solutions.Threads.Queue.{Queued, new_pool-Queued}
use native.Mathlib.Decide.{ℕ_discrete}

-- Not a number of threads from 1 to 20.
abbrev pub Outside : ℤ → Type 0
Outside (pos k) = (k < 1) ⊎ (20 < k)
Outside (negsuc n) = Unit

thread_pool_new_range :
    (n : ℤ) (s : System)
    → ((k : ℕ) × (n ≡ pos k)
        × (1 ≤ k)
        × (k ≤ 20)
        × (thread_pool_new n s ≡ ok (success, record s { pool = live (new_pool k) })))
      ⊎ (Outside n × (thread_pool_new n s ≡ ok (failure invalid_argument, s)))
unfolding thread_pool_new
thread_pool_new_range (negsuc n) s = inr (tt, refl)
thread_pool_new_range (pos n) s = elim (Bool-cases (ltb 20 n || ltb n 1)) [
  | inl out ↦ inr (ground arith, rw out refl)
  | inr within ↦ inl (n, refl, ground arith, ground arith, rw within refl)
]

create_threads_all :
    (created : ℕ → Bool) (n i : ℕ)
    → ((j : ℕ) → i ≤ j → j < i + n → created j ≡ true)
    → create_threads created n i ≡ n
unfolding create_threads
create_threads_all created zero i h = refl
create_threads_all created (suc n) i h =
    let rest = create_threads_all created n (i + 1) (λ j l m. h j (omega arith) (omega arith)) in
    rw (h i (omega arith) (omega arith), rest) (omega arith)

create_threads-le : (created : ℕ → Bool) (n i : ℕ) → create_threads created n i ≤ n
unfolding create_threads
create_threads-le created zero i = omega arith
create_threads-le created (suc n) i =
    let rest = create_threads-le created n (i + 1) in
    elim (Bool-cases (created i)) [ inl e ↦ rw e (omega arith) | inr e ↦ rw e (omega arith) ]

create_threads_missing :
    (created : ℕ → Bool) (n i j : ℕ)
    → i ≤ j
    → j < i + n
    → created j ≡ false
    → create_threads created n i < n
unfolding create_threads
create_threads_missing created zero i j l m e = absurd (omega arith)
create_threads_missing created (suc n) i j l m e = elim (Bool-cases (created i)) [
  | inl made ↦
      let apart : i ≢ j = λ same. cc in
      rw made
        (omega (arith, create_threads_missing created n (i + 1) j (omega arith) (omega arith) e))
  | inr missing ↦ rw missing (omega (arith, create_threads-le created n (i + 1)))
]

module _ (created : ℕ → Bool) (p : ThreadPool) (s : System) where
  -- Where every thread of a new pool can be created, `thread_task_execute` returns 0, and the
  -- thread count of the pool is its size.
  pub thread_task_execute_all :
      s.pool ≡ live p
      → p.thread_count ≡ 0
      → ((j : ℕ) → j < p.threads_size → created j ≡ true)
      → thread_task_execute created s
        ≡ ok (success, record s { pool = live (record p { thread_count = p.threads_size }) })
  unfolding thread_task_execute
  thread_task_execute_all at start all =
      let count = create_threads_all created p.threads_size 0 (λ j l m. all j (omega arith)) in
      let from_none : 0 + p.threads_size ≡ p.threads_size = omega arith in
      rw (at, start, count, from_none, ==_self p.threads_size) refl

  -- Where one of the threads of a new pool cannot be created, `thread_task_execute` reads the pool
  -- that it has just freed.
  thread_task_execute_missing :
      (j : ℕ)
      → s.pool ≡ live p
      → p.thread_count ≡ 0
      → j < p.threads_size
      → created j ≡ false
      → thread_task_execute created s ≡ err fault
  unfolding thread_task_execute
  thread_task_execute_missing j at start inside e =
      let few = create_threads_missing created p.threads_size 0 j (omega arith) (omega arith) e in
      let less : ((0 + create_threads created p.threads_size 0) == p.threads_size) ≡ false =
        ground arith in
      rw (at, start, less) refl

-- All of the first `n` threads are created, or one is not.
all_created :
    (created : ℕ → Bool) (n : ℕ)
    → ((j : ℕ) → j < n → created j ≡ true) ⊎ ((j : ℕ) × (j < n) × (created j ≡ false))
all_created created zero = inl (λ j h. absurd (omega arith))
all_created created (suc n) = elim (all_created created n) [
  | inr (j, inside, e) ↦ inr (j, omega arith, e)
  | inl all ↦ elim (Bool-cases (created n)) [
    | inr e ↦ inr (n, omega arith, e)
    | inl e ↦
        inl (λ j h. elim (ℕ_discrete j n) [ yes same ↦ rw same e | no apart ↦ all j (omega arith) ])
  ]
]

-- What the start of a pool of `k` threads gives: the pool with all of its threads and no task, or a
-- fault where one of the threads is missing.
abbrev pub Started : (ℕ → Bool) → ℕ → System → Outcome Trap (Status × System) → Type 0
Started created k s o =
    (((j : ℕ) → j < k → created j ≡ true)
      × Ensures
          (λ r s'.
            (r ≡ success) × Holds [] s.tasks 0 s' × (thread_pool_thread_count s' ≡ ok (k, s')))
          (λ _. ⊥) o)
    ⊎ ((j : ℕ) × (j < k) × (created j ≡ false) × (o ≡ err fault))

new_pool_running : (k : ℕ) → k ≤ 20 → Queued (record (new_pool k) { thread_count = k }) []
new_pool_running k most =
    let w = new_pool-Queued k in
    record {
      counted = w.counted;
      span = w.span;
      entries = w.entries;
      size = w.size;
      inside = w.inside;
      threads = most;
    }

new_pool-Started :
    (created : ℕ → Bool) (k : ℕ) (s : System)
    → k ≤ 20
    → Started created k s (thread_task_execute created (record s { pool = live (new_pool k) }))
unfolding thread_pool_thread_count
new_pool-Started created k s most =
    let p = new_pool k in
    let made : System = record s { pool = live p } in
    let running : ThreadPool = record p { thread_count = k } in
    elim (all_created created k) [
      | inl all ↦ inl (
        all,
        rw (thread_task_execute_all created p made refl refl all) (
            returns (
              refl,
              record {
                pool = running;
                pool_at = refl;
                queued = new_pool_running k most;
                heap = refl;
                tail_at = refl;
              },
              refl,
            )),
      )
      | inr (j, inside, e) ↦
          inr (j, inside, e, thread_task_execute_missing created p made j refl refl inside e)
    ]

-- For any `int` and whichever threads can be created: `thread_pool_new` refuses a number that is not
-- from 1 to 20, negative ones included, with `TPOOL_ERR_INVALID_ARGUMENT`, and changes nothing. Of 1
-- to 20 threads it makes a pool, and `thread_task_execute` returns 0 where all threads are created:
-- the pool then counts that many threads, has no task, and no task was changed. Where a thread is
-- missing, `thread_task_execute` reads the pool that it has just freed.
pub thread_task_execute-thread_pool_new :
    (created : ℕ → Bool) (n : ℤ) (s : System)
    → ((k : ℕ) × (n ≡ pos k)
        × (1 ≤ k)
        × (k ≤ 20)
        × Started created k s ((thread_pool_new n >>= λ _. thread_task_execute created) s))
      ⊎ (Outside n × (thread_pool_new n s ≡ ok (failure invalid_argument, s)))
thread_task_execute-thread_pool_new created n s = elim (thread_pool_new_range n s) [
  | inl (k, e, least, most, made) ↦
      inl (k, e, least, most, rw made (new_pool-Started created k s most))
  | inr refused ↦ inr refused
]
