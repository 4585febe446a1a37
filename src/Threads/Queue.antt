-- ===== src/Threads/Queue.antt =====
-- The queue of the thread pool as a list of the tasks that wait.
use sysprog_solutions.Common.{
  ℕ, List, ◌<◌, ◌≡◌, ◌∷◌, [], if◌then◌else◌, ◌+◌, get_elem?, arith, length, ◌-◌, ◌==◌, ◌++◌,
  length-append, suc, some, err, ok, ◌≢◌, ◌≤◌, inl, false, ◌⊎◌, refl, inr, ltb, true, zero, ap, sym,
}
use sysprog_solutions.Threads.Pool.{
  new_pool, ThreadPool, thread_pool_push_task, System, tpool_max_tasks, live, fault, success,
  tpool_max_threads,
}

-- The tasks `q` wait, the first of them at the head, in a queue that was never written past its end
-- and never wraps around; the pool has 20 threads at most.
pub record Queued (p : ThreadPool) (q : List ℕ) : Type 0 where
  pub counted : p.queue_count ≡ length q
  pub span : p.queue_tail ≡ p.queue_head + length q
  pub entries : (i : ℕ) {t : ℕ} → get_elem? q i ≡ some t → p.queue (p.queue_head + i) ≡ some t
  pub size : p.queue_size ≡ tpool_max_tasks
  pub inside : p.queue_tail ≤ tpool_max_tasks
  pub threads : p.thread_count ≤ tpool_max_threads

pub new_pool-Queued : (n : ℕ) → Queued (new_pool n) []
new_pool-Queued n = record {
  counted = refl;
  span = refl;
  entries = λ i e. cc;
  size = refl;
  inside = omega arith;
  threads = omega arith;
}

-- The entry behind the last one.
get_elem?-snoc :
    (q : List ℕ) (t i : ℕ) {u : ℕ}
    → get_elem? (q ++ t ∷ []) i ≡ some u
    → ((i ≢ length q) × (get_elem? q i ≡ some u)) ⊎ ((i ≡ length q) × (u ≡ t))
get_elem?-snoc [] t zero e = inr (refl, cc)
get_elem?-snoc [] t (suc i) e = cc
get_elem?-snoc (x ∷ q) t zero e = inl (omega arith, e)
get_elem?-snoc (x ∷ q) t (suc i) e = elim (get_elem?-snoc q t i e) [
  | inl (apart, at) ↦ inl (omega arith, at)
  | inr (last, same) ↦ inr (omega arith, same)
]

-- The pool behind a push.
abbrev pub pushed : ThreadPool → ℕ → ThreadPool
pushed p task = record p {
  queue = λ i. if i == p.queue_tail then some task else p.queue i;
  queue_tail = p.queue_tail + 1;
  queue_count = p.queue_count + 1;
}

pushed-Queued :
    (p : ThreadPool) (q : List ℕ) (task : ℕ)
    → Queued p q
    → p.queue_tail < tpool_max_tasks
    → Queued (pushed p task) (q ++ task ∷ [])
pushed-Queued p q task w room =
    let span = w.span in
    record {
      counted = omega (arith, w.counted, length-append q (task ∷ []));
      span = omega (arith, w.span, length-append q (task ∷ []));
      entries = λ i e. elim (get_elem?-snoc q task i e) [
        | inl (apart, at) ↦
            let other : ((p.queue_head + i) == p.queue_tail) ≡ false = ground arith in
            rw other (w.entries i at)
        | inr (last, same) ↦
            let there : ((p.queue_head + i) == p.queue_tail) ≡ true = ground arith in
            rw there (ap some (sym same))
      ];
      size = w.size;
      inside = omega arith;
      threads = w.threads;
    }

-- A push behind fewer than 100000 others succeeds, and the task waits behind all that wait.
pub thread_pool_push_task-Queued :
    (p : ThreadPool) (q : List ℕ) (task : ℕ) (s : System)
    → s.pool ≡ live p
    → Queued p q
    → p.queue_tail < tpool_max_tasks
    → (thread_pool_push_task task s ≡ ok (success, record s { pool = live (pushed p task) }))
      × Queued (pushed p task) (q ++ task ∷ [])
unfolding thread_pool_push_task
thread_pool_push_task-Queued p q task s at w room =
    let few = w.threads in
    let free : ((p.thread_count + 1) == tpool_max_tasks) ≡ false = ground arith in
    let fits : ltb p.queue_tail p.queue_size ≡ true = rw w.size (ground arith) in
    (rw (at, free, fits) refl, pushed-Queued p q task w room)

-- The push behind 100000 others writes past the end of the queue, whatever the number of tasks
-- that still wait; `TPOOL_ERR_TOO_MANY_TASKS` is not returned.
pub thread_pool_push_task_full :
    (p : ThreadPool) (q : List ℕ) (task : ℕ) (s : System)
    → s.pool ≡ live p
    → Queued p q
    → p.queue_tail ≡ tpool_max_tasks
    → thread_pool_push_task task s ≡ err fault
unfolding thread_pool_push_task
thread_pool_push_task_full p q task s at w full =
    let few = w.threads in
    let free : ((p.thread_count + 1) == tpool_max_tasks) ≡ false = ground arith in
    let over : ltb p.queue_tail p.queue_size ≡ false = rw w.size (ground arith) in
    rw (at, free, over) refl

-- The pool behind a round that takes a task.
abbrev pub popped : ThreadPool → ThreadPool
popped p = record p { queue_head = p.queue_head + 1; queue_count = p.queue_count - 1 }

pub popped-Queued : (p : ThreadPool) (t : ℕ) (q : List ℕ) → Queued p (t ∷ q) → Queued (popped p) q
popped-Queued p t q w = record {
  counted = omega (arith, w.counted);
  span = omega (arith, w.span);
  entries = λ i e.
      let next : p.queue_head + 1 + i ≡ p.queue_head + suc i = omega arith in
      rw next (w.entries (suc i) e);
  size = w.size;
  inside = w.inside;
  threads = w.threads;
}
