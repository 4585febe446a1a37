-- ===== src/Threads/Schedule.antt =====
-- Pushes and worker rounds in any order: the mutex makes each of them one step.
use sysprog_solutions.Common.{
  zero, replicate, ◌>>=◌, ◌>>◌, ℕ, List, ◌∷◌, ◌++◌, Option, [], ◌≡◌, sym, pure, append-nil, ◌+◌,
  length, ◌∙◌, append_assoc, ◌≤◌, ap, Ensures, arith, returns, suc, get_elem?, set, some,
  lt-of-get_elem?, refl,
}
use sysprog_solutions.Threads.Rounds.{
  AllLive, run_all, process_round_idle, process_round-finished, finished, AllLive-set,
}
use sysprog_solutions.Threads.Pool.{
  Value, ThreadTask, System, Call, ThreadPool, live, tpool_max_tasks, thread_pool_push_task,
  process_round,
}
use sysprog_solutions.Threads.Queue.{
  Queued, thread_pool_push_task-Queued, pushed, popped, popped-Queued,
}

-- A client's push of a task, or a round of some worker.
pub data Event : Type 0 where
  push : ℕ → Event
  round : Event

abbrev run_event : (ℕ → ℕ → Value) → Event → Call (Unit {0})
run_event call (push task) = do status ← thread_pool_push_task task; pure tt
run_event call round = process_round call

pub run_schedule : (ℕ → ℕ → Value) → List Event → Call (Unit {0})
run_schedule call [] = pure tt
run_schedule call (e ∷ es) = do run_event call e; run_schedule call es

-- The tasks that are pushed, in order.
unfoldable pub pushes : List Event → List ℕ
pushes [] = []
pushes (push t ∷ es) = t ∷ pushes es
pushes (round ∷ es) = pushes es

abbrev pop : List ℕ → List ℕ
pop [] = []
pop (t ∷ q) = q

-- The tasks that are run, and those that wait, where `q` wait at the start.
pub ran : List Event → List ℕ → List ℕ
ran [] q = []
ran (push t ∷ es) q = ran es (q ++ t ∷ [])
ran (round ∷ es) [] = ran es []
ran (round ∷ es) (t ∷ q) = t ∷ ran es q

pub waiting : List Event → List ℕ → List ℕ
waiting [] q = q
waiting (push t ∷ es) q = waiting es (q ++ t ∷ [])
waiting (round ∷ es) q = waiting es (pop q)

-- First in, first out: those run and then those waiting are those that waited and were pushed.
ran-waiting : (es : List Event) (q : List ℕ) → ran es q ++ waiting es q ≡ q ++ pushes es
unfolding ran waiting pushes
ran-waiting [] q = sym (append-nil q)
ran-waiting (push t ∷ es) q = ran-waiting es (q ++ t ∷ []) ∙ append_assoc q (t ∷ []) (pushes es)
ran-waiting (round ∷ es) [] = ran-waiting es []
ran-waiting (round ∷ es) (t ∷ q) = ap (◌∷◌ t) (ran-waiting es q)

-- The system with a pool in which the tasks `q` wait, and the tasks on its heap.
pub record Holds (q : List ℕ) (tasks : List (Option ThreadTask)) (tail : ℕ) (s : System)
    : Type 0 where
  pub pool : ThreadPool
  pub pool_at : s.pool ≡ live pool
  pub queued : Queued pool q
  pub heap : s.tasks ≡ tasks
  pub tail_at : pool.queue_tail ≡ tail

-- The system behind a round that ran the task at the head.
pub popped-Holds :
    (call : ℕ → ℕ → Value) (a : ℕ) (q : List ℕ) (t : ThreadTask) {tasks : List (Option ThreadTask)}
    {tail : ℕ} {s : System} (h : Holds (a ∷ q) tasks tail s)
    → Holds q
        (set tasks a (some (finished call t)))
        tail
        (record s { pool = live (popped h.pool); tasks = set s.tasks a (some (finished call t)) })
popped-Holds call a q t h = record {
  pool = popped h.pool;
  pool_at = refl;
  queued = popped-Queued h.pool a q h.queued;
  heap = ap (λ x. set x a (some (finished call t))) h.heap;
  tail_at = h.tail_at;
}

module _ (call : ℕ → ℕ → Value) where
  run_schedule-Holds :
      (es : List Event) (q : List ℕ) (tasks : List (Option ThreadTask)) (tail : ℕ) (s : System)
      → Holds q tasks tail s
      → AllLive (q ++ pushes es) tasks
      → tail + length (pushes es) ≤ tpool_max_tasks
      → Ensures
          (λ _ s'.
            Holds (waiting es q) (run_all call (ran es q) tasks) (tail + length (pushes es)) s')
          (λ _. ⊥)
          (run_schedule call es s)
  unfolding run_schedule waiting ran pushes run_all AllLive
  run_schedule-Holds [] q tasks tail s h l few =
      let e : tail + 0 ≡ tail = omega arith in returns (rw e h)
  run_schedule-Holds (push t ∷ es) q tasks tail s h l few =
      let (run, w) =
        thread_pool_push_task-Queued h.pool q t s h.pool_at h.queued (omega (arith, h.tail_at)) in
      let e : tail + suc (length (pushes es)) ≡ tail + 1 + length (pushes es) = omega arith in
      rw (run, e)
        (run_schedule-Holds es (q ++ t ∷ []) tasks (tail + 1) _
          (record {
            pool = pushed h.pool t;
            pool_at = refl;
            queued = w;
            heap = h.heap;
            tail_at = omega (arith, h.tail_at);
          })
          (rw (append_assoc q (t ∷ []) (pushes es)) l) (omega arith))
  run_schedule-Holds (round ∷ es) [] tasks tail s h l few =
      rw (process_round_idle call h.pool s h.pool_at h.queued)
        (run_schedule-Holds es [] tasks tail s h l few)
  run_schedule-Holds (round ∷ es) (a ∷ q) tasks tail s h ((t, at), l) few =
      let at' = ap (λ x. get_elem? x a) h.heap ∙ at in
      let run = process_round-finished call h.pool a q s t h.pool_at h.queued at' in
      rw (run, ran, run_all, at)
        (run_schedule-Holds es q (set tasks a (some (finished call t))) tail _
          (popped-Holds call a q t h)
          (AllLive-set (q ++ pushes es) a (finished call t) tasks (lt-of-get_elem? tasks a at) l)
          few)

  -- Any order of pushes and rounds on live tasks, with 100000 pushes at most in the life of the
  -- pool, goes through. First in, first out: the tasks run and then those that wait are those that
  -- waited and then those pushed, in order; each task run gets what its function returns.
  pub run_schedule_fifo :
      (es : List Event) (q : List ℕ) (tasks : List (Option ThreadTask)) (tail : ℕ) (s : System)
      → Holds q tasks tail s
      → AllLive (q ++ pushes es) tasks
      → tail + length (pushes es) ≤ tpool_max_tasks
      → Ensures
          (λ _ s'.
            Holds (waiting es q) (run_all call (ran es q) tasks) (tail + length (pushes es)) s')
          (λ _. ⊥)
          (run_schedule call es s)
        × (ran es q ++ waiting es q ≡ q ++ pushes es)
  run_schedule_fifo es q tasks tail s h l few =
      (run_schedule-Holds es q tasks tail s h l few, ran-waiting es q)

pub pushes-replicate : (n a : ℕ) → pushes (replicate n (push a)) ≡ replicate n a
unfolding pushes
pushes-replicate zero a = refl
pushes-replicate (suc n) a = ap (λ q. a ∷ q) (pushes-replicate n a)
