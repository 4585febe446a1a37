-- ===== src/Threads/Progress.antt =====
-- The writes of `process_task` to a task, one by one, as a join sees them: it reads the flags
-- without the mutex.
use sysprog_solutions.Common.{
  ◌≢◌, refl, ℕ, ◌≡◌, ap, true, false, some, get_elem?, Ensures, stops, returns, ok, set, set-set,
}
use sysprog_solutions.Threads.Pool.{
  allocated, Value, ThreadTask, thread_task_join, System, success, blocked, join_task, run_task,
}
use sysprog_solutions.Threads.Rounds.{finished}

-- How far the worker is with the task: before the first write, or behind each of the four.
pub data Phase : Type 0 where
  queued running returned marked left : Phase

-- A write of the worker.
pub data Write (call : ℕ → ℕ → Value) (t : ThreadTask) : Phase → ThreadTask → Phase → Type 0 where
  start : Write call t queued (record t { is_running = true }) running
  store : Write call t running (record t { ret = call t.function t.arg }) returned
  mark : Write call t returned (record t { is_finished = true }) marked
  leave : Write call t marked (record t { is_running = false }) left

-- The states that a task passes through from `t`.
pub data Reach (call : ℕ → ℕ → Value) (t : ThreadTask) : ThreadTask → Phase → Type 0 where
  begin : Reach call t t queued
  step : {u v : ThreadTask} {p q : Phase} → Reach call t u p → Write call u p v q → Reach call t v q

-- What is known of the task in each phase.
Known : (call : ℕ → ℕ → Value) → (t u : ThreadTask) → Phase → Type 0
Known call t u queued = u ≡ t
Known call t u running = u ≡ record t { is_running = true }
Known call t u returned = u ≡ record t { is_running = true; ret = call t.function t.arg }
Known call t u marked =
    u ≡ record t { is_running = true; ret = call t.function t.arg; is_finished = true }
Known call t u left = u ≡ finished call t

Write-Known :
    (call : ℕ → ℕ → Value) (t : ThreadTask) {u v : ThreadTask} {p q : Phase}
    → Known call t u p
    → Write call u p v q
    → Known call t v q
unfolding Known
Write-Known call t k start = ap (λ (x : ThreadTask). record x { is_running = true }) k
Write-Known call t k store = ap (λ (x : ThreadTask). record x { ret = call x.function x.arg }) k
Write-Known call t k mark = ap (λ (x : ThreadTask). record x { is_finished = true }) k
Write-Known call t k leave = ap (λ (x : ThreadTask). record x { is_running = false }) k

Reach-Known :
    (call : ℕ → ℕ → Value) (t : ThreadTask) {u : ThreadTask} {p : Phase}
    → Reach call t u p
    → Known call t u p
unfolding Known
Reach-Known call t begin = refl
Reach-Known call t (step r w) = Write-Known call t (Reach-Known call t r) w

join_task-Known :
    (call : ℕ → ℕ → Value) (t u : ThreadTask) (p : Phase) (a r : ℕ) (s : System)
    → t.is_finished ≡ false
    → call t.function t.arg ≡ allocated r
    → Known call t u p
    → Ensures
        (λ x _. (p ≡ left) × (x ≡ (success, some r)))
        (λ e. (e ≡ blocked) × (p ≢ left))
        (join_task a u s)
unfolding Known
join_task-Known call t u queued a r s fresh own k = rw (k, fresh) (stops (refl, λ x. cc))
join_task-Known call t u running a r s fresh own k = rw (k, fresh) (stops (refl, λ x. cc))
join_task-Known call t u returned a r s fresh own k = rw (k, fresh) (stops (refl, λ x. cc))
join_task-Known call t u marked a r s fresh own k = rw k (stops (refl, λ x. cc))
join_task-Known call t u left a r s fresh own k = rw (k, own) (returns (refl, refl))

-- At any point of the run of a task that was not finished before and whose function returns an `int`
-- from `malloc`, `thread_task_join` waits until the worker has left the task, and then returns 0 and
-- the `int`. A task that was not pushed is not told apart: the join waits for it too, and does not
-- return `TPOOL_ERR_TASK_NOT_PUSHED`.
pub thread_task_join-Reach :
    (call : ℕ → ℕ → Value) (t u : ThreadTask) (p : Phase) (a r : ℕ) (s : System)
    → t.is_finished ≡ false
    → call t.function t.arg ≡ allocated r
    → Reach call t u p
    → get_elem? s.tasks a ≡ some (some u)
    → Ensures
        (λ x _. (p ≡ left) × (x ≡ (success, some r)))
        (λ e. (e ≡ blocked) × (p ≢ left))
        (thread_task_join (some a) s)
unfolding thread_task_join
thread_task_join-Reach call t u p a r s fresh own way at =
    rw at (join_task-Known call t u p a r s fresh own (Reach-Known call t way))

-- A worker that runs a live task passes it through the four writes, and leaves it as they do.
pub run_task-Reach :
    (call : ℕ → ℕ → Value) (a : ℕ) (s : System) (t : ThreadTask)
    → get_elem? s.tasks a ≡ some (some t)
    → (v : ThreadTask) × (run_task call a s ≡ ok (tt, record s { tasks = set s.tasks a (some v) }))
      × Reach call t v left
unfolding run_task
run_task-Reach call a s t at = (
  finished call t,
  rw at (
      ap (λ tasks. ok (tt, record s { tasks = tasks }))
        (set-set s.tasks a (some (record t { is_running = true })) (some (finished call t)))),
  step (step (step (step begin start) store) mark) leave,
)
