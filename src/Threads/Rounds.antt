-- ===== src/Threads/Rounds.antt =====
-- The workers of the thread pool: a round of `process_task`, and pushes and rounds in any order.
use sysprog_solutions.Common.{
  ℕ, List, Option, some, ◌<◌, true, ◌∷◌, set, false, ◌≡◌, length, get_elem?, ap, sym, [], ok, ◌∙◌,
  refl, get_elem?-set_self, ltb, get_elem?-set_ne, arith, set-set, ◌+◌,
}
use sysprog_solutions.Threads.Pool.{
  Value, process_round, ThreadTask, ThreadPool, run_task, System, live,
}
use native.Mathlib.Decide.{ℕ_discrete}
use sysprog_solutions.Threads.Queue.{Queued, popped}

-- A task that has been run.
abbrev pub finished : (ℕ → ℕ → Value) → ThreadTask → ThreadTask
finished call t = record t { ret = call t.function t.arg; is_finished = true; is_running = false }

abbrev finish_at :
    (ℕ → ℕ → Value)
    → ℕ
    → List (Option ThreadTask)
    → Option (Option ThreadTask)
    → List (Option ThreadTask)
finish_at call a heap (some (some t)) = set heap a (some (finished call t))
finish_at call a heap _ = heap

-- The heap behind the tasks `q`, each run once, in that order.
unfoldable pub run_all :
    (ℕ → ℕ → Value) → List ℕ → List (Option ThreadTask) → List (Option ThreadTask)
run_all call [] heap = heap
run_all call (a ∷ q) heap = run_all call q (finish_at call a heap (get_elem? heap a))

-- Every task of the list is on the heap, not freed.
unfoldable pub AllLive : List ℕ → List (Option ThreadTask) → Type 0
AllLive [] heap = Unit {0}
AllLive (a ∷ q) heap = ((t : ThreadTask) × (get_elem? heap a ≡ some (some t))) × AllLive q heap

pub AllLive-set :
    (q : List ℕ) (a : ℕ) (t : ThreadTask) (heap : List (Option ThreadTask))
    → a < length heap
    → AllLive q heap
    → AllLive q (set heap a (some t))
unfolding AllLive
AllLive-set [] a t heap h l = tt
AllLive-set (b ∷ q) a t heap h ((u, at), l) =
    let rest = AllLive-set q a t heap h l in
    elim (ℕ_discrete a b) [
      | yes same ↦ (
        (t, ap (get_elem? (set heap a (some t))) (sym same) ∙ get_elem?-set_self heap a (some t) h),
        rest,
      )
      | no apart ↦ ((u, get_elem?-set_ne heap a b (some t) apart ∙ at), rest)
    ]

module _ (call : ℕ → ℕ → Value) where
  -- A round with nothing queued changes nothing.
  pub process_round_idle :
      (p : ThreadPool) (s : System)
      → s.pool ≡ live p
      → Queued p []
      → process_round call s ≡ ok (tt, s)
  unfolding process_round
  process_round_idle p s at w = rw (at, w.counted) refl

  -- A round with tasks queued runs the first of them and takes it out of the queue.
  pub process_round-finished :
      (p : ThreadPool) (a : ℕ) (q : List ℕ) (s : System) (t : ThreadTask)
      → s.pool ≡ live p
      → Queued p (a ∷ q)
      → get_elem? s.tasks a ≡ some (some t)
      → process_round call s
        ≡ ok (
          tt,
          record s { pool = live (popped p); tasks = set s.tasks a (some (finished call t)) },
        )
  unfolding process_round run_task
  process_round-finished p a q s t at w e =
      let waiting : ltb 0 p.queue_count ≡ true = rw w.counted (ground arith) in
      let inside : ltb p.queue_head p.queue_size ≡ true =
        rw w.size (let span = w.span in let end = w.inside in ground arith) in
      let head : p.queue p.queue_head ≡ some a =
        let none_on : p.queue_head + 0 ≡ p.queue_head = omega arith in
        ap p.queue (sym none_on) ∙ w.entries 0 refl in
      let running : ThreadTask = record t { is_running = true } in
      rw (at, waiting, inside, head, e)
        (ap (λ tasks. ok (tt, record s { pool = live (popped p); tasks = tasks }))
          (set-set s.tasks a (some running) (some (finished call t))))
