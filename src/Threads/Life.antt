-- ===== src/Threads/Life.antt =====
-- The life of a task: the end of the queue that it waits in, its join and its delete.
use sysprog_solutions.Threads.Schedule.{Holds, popped-Holds}
use sysprog_solutions.Common.{
  Outcome, ℕ, ◌>>=◌, ◌≤◌, arith, ◌≡◌, List, Option, get_elem?, ok, suc, false, true, some,
  Bool-cases, err, zero, inl, Ensures, ◌∷◌, [], refl, inr, ◌⊎◌, lt-of-get_elem?, get_elem?-set_self,
  none, returns, set, length, ap, ◌∙◌,
}
use sysprog_solutions.Threads.Pool.{
  Trap, Status, no_value, freed_value, elsewhere, allocated, Value, thread_task_join,
  thread_task_delete, process_task, ThreadPool, System, ThreadTask, live, success, fault,
  process_round, failure, has_tasks,
}
use sysprog_solutions.Threads.Rounds.{
  run_all, AllLive, finished, process_round-finished, process_round_idle, AllLive-set,
}
use sysprog_solutions.Threads.Queue.{popped, Queued}

module _ (call : ℕ → ℕ → Value) where
  -- As many rounds of one worker as tasks wait, or more, run all of them in order and leave none,
  -- where no task was freed.
  pub process_task-Holds :
      (k : ℕ) (q : List ℕ) (tasks : List (Option ThreadTask)) (tail : ℕ) (s : System)
      → Holds q tasks tail s
      → AllLive q tasks
      → length q ≤ k
      → Ensures (λ _ s'. Holds [] (run_all call q tasks) tail s') (λ _. ⊥) (process_task call k s)
  unfolding process_task run_all AllLive
  process_task-Holds zero [] tasks tail s h l few = returns h
  process_task-Holds zero (a ∷ q) tasks tail s h l few = absurd (omega arith)
  process_task-Holds (suc k) [] tasks tail s h l few =
      rw (process_round_idle call h.pool s h.pool_at h.queued)
        (process_task-Holds k [] tasks tail s h l (omega arith))
  process_task-Holds (suc k) (a ∷ q) tasks tail s h ((t, at), l) few =
      let at' = ap (λ x. get_elem? x a) h.heap ∙ at in
      let run = process_round-finished call h.pool a q s t h.pool_at h.queued at' in
      rw (run, run_all, at)
        (process_task-Holds k q (set tasks a (some (finished call t))) tail _
          (popped-Holds call a q t h)
          (AllLive-set q a (finished call t) tasks (lt-of-get_elem? tasks a at) l) (omega arith))

  -- What a join gives of a pointer that a task's function returned: of an `int` from `malloc` the
  -- `int`, and a second join then reads freed memory; of NULL or any other pointer a fault.
  abbrev pub Joined : ℕ → Value → Outcome Trap ((Status × Option ℕ) × System) → Type 0
  Joined a (allocated r) o =
      Ensures (λ x s'. (x ≡ (success, some r)) × (thread_task_join (some a) s' ≡ err fault))
        (λ _. ⊥) o
  Joined a _ o = o ≡ err fault

  join-Joined :
      (a : ℕ) (s : System) (t : ThreadTask) (v : Value)
      → get_elem? s.tasks a ≡ some (some (record (finished call t) { ret = v }))
      → Joined a v (thread_task_join (some a) s)
  unfolding thread_task_join
  join-Joined a s t no_value at = rw at refl
  join-Joined a s t freed_value at = rw at refl
  join-Joined a s t elsewhere at = rw at refl
  join-Joined a s t (allocated r) at =
      let again =
        get_elem?-set_self s.tasks a (some (record (finished call t) { ret = freed_value }))
          (lt-of-get_elem? s.tasks a at) in
      rw at (returns (refl, rw again refl))

  -- Behind the round that took a task off the head of the queue, a join of the task goes by the
  -- pointer that the function of the task returns for its argument. Of an `int` from `malloc` it
  -- returns 0 and the `int`, and a second join of the task reads memory that the first one freed. NULL
  -- it reads, and any other pointer, as one to a variable of the client, it passes to `free`: undefined
  -- behaviour.
  pub thread_task_join-process_round :
      (p : ThreadPool) (a : ℕ) (q : List ℕ) (s : System) (t : ThreadTask)
      → s.pool ≡ live p
      → Queued p (a ∷ q)
      → get_elem? s.tasks a ≡ some (some t)
      → Joined a (call t.function t.arg) ((process_round call >>= λ _. thread_task_join (some a)) s)
  thread_task_join-process_round p a q s t at w e =
      let inside = lt-of-get_elem? s.tasks a e in
      let stored = get_elem?-set_self s.tasks a (some (finished call t)) inside in
      let s' : System = record s {
        pool = live (popped p);
        tasks = set s.tasks a (some (finished call t));
      } in
      rw (process_round-finished call p a q s t at w e)
        (join-Joined a s' t (call t.function t.arg) stored)

-- `thread_task_delete` frees a task that is finished, and a later delete or join of it is a fault;
-- a task that is not finished stays as it is, and `TPOOL_ERR_HAS_TASKS` is returned.
thread_task_delete_branches :
    (a : ℕ) (s : System) (t : ThreadTask)
    → get_elem? s.tasks a ≡ some (some t)
    → ((t.is_finished ≡ true)
        × Ensures
            (λ r s'.
              (r ≡ success)
              × (thread_task_delete a s' ≡ err fault)
              × (thread_task_join (some a) s' ≡ err fault))
            (λ _. ⊥)
            (thread_task_delete a s))
      ⊎ ((t.is_finished ≡ false) × (thread_task_delete a s ≡ ok (failure has_tasks, s)))
unfolding thread_task_delete thread_task_join
thread_task_delete_branches a s t e = elim (Bool-cases t.is_finished) [
  | inl done ↦
      let gone = get_elem?-set_self s.tasks a none (lt-of-get_elem? s.tasks a e) in
      inl (done, rw (e, done) (returns (refl, rw gone refl, rw gone refl)))
  | inr undone ↦ inr (undone, rw (e, undone) refl)
]
