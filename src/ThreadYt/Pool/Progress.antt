-- ===== src/ThreadYt/Pool/Progress.antt =====
-- When a thread of `thread_pool.c` can go on.
use sysprog_solutions.Common.{
  ℕ, [], ◌∷◌, refl, some, false, List, get_elem?, ◌≡◌, ◌<◌, length, ◌+◌, arith, ◌≤◌, ap, total,
  le-total,
}
use sysprog_solutions.ThreadYt.Pool.Invariant.{Inv}
use sysprog_solutions.ThreadYt.Pool.Threads.{
  submit, submitting, submitted, signalling, starting, checking, waiting, woken, took, executing,
  lock_submit, put, unlock_submit, signal_one, signal_none, lock_worker, cond_wait, wake,
  lock_again, get, unlock_worker, execute_task, Memory, Pc, Move, Order, in_section, awake, sleeps,
  makes, stores, signals,
}
use sysprog_solutions.ThreadYt.System.{State, Step, pick}
use sysprog_solutions.ThreadYt.Pool.{Task}
use sysprog_solutions.ThreadYt.Pool.Contents.{IsQueue, first_task-IsQueue, submit_task-IsQueue}
use native.Mathlib.Decide.{dec_lt}

module _ (s : State Memory Pc) (i : ℕ) where
  put_move :
      (made : List Task)
      → get_elem? s.threads i ≡ some submitting
      → Order made s.shared.queue s.shared.taken s.shared.todo
      → (todo : List Task) → s.shared.todo ≡ todo
      → 0 < length todo
      → length s.shared.todo + s.shared.queue.count ≤ 256
      → (t : State Memory Pc) × Step Move s t
  put_move made e o [] same pos room = absurd (omega arith)
  put_move made e o (t ∷ ts) same pos room =
      let (q, stored, _) =
        submit_task-IsQueue t s.shared.queue o.tasks o.queue
          (omega (arith, o.queue.count, room, ap length same)) in
      (_, pick i e (put same stored))

  get_move :
      (made : List Task)
      → get_elem? s.threads i ≡ some checking
      → Order made s.shared.queue s.shared.taken s.shared.todo
      → 0 < s.shared.queue.count
      → (t : State Memory Pc) × Step Move s t
  get_move made e o pos = first_of o.tasks o.queue
    where
      first_of :
          (tasks : List Task) → IsQueue s.shared.queue tasks → (t : State Memory Pc) × Step Move s t
      first_of [] is = absurd (omega (arith, pos, is.count))
      first_of (t ∷ tasks) is =
          let (q, got, _) = first_task-IsQueue t s.shared.queue tasks is in
          (_, pick i e (get pos got))

  pub section_move :
      (workers : ℕ) (made : List Task) (l : Pc)
      → Inv workers made s
      → get_elem? s.threads i ≡ some l
      → 0 < in_section l
      → (t : State Memory Pc) × Step Move s t
  section_move workers made submit inv e h = absurd (omega arith)
  section_move workers made submitting inv e h =
      put_move made e inv.order s.shared.todo refl
        (omega (arith, inv.counts.pending, le-total stores s.threads i e))
        (omega (arith, inv.counts.room))
  section_move workers made submitted inv e h = (_, pick i e unlock_submit)
  section_move workers made signalling inv e h = absurd (omega arith)
  section_move workers made starting inv e h = absurd (omega arith)
  section_move workers made checking inv e h = elim (dec_lt 0 s.shared.queue.count) [
    | yes pos ↦ get_move made e inv.order pos
    | no empty ↦ (_, pick i e (cond_wait (omega arith)))
  ]
  section_move workers made waiting inv e h = absurd (omega arith)
  section_move workers made woken inv e h = absurd (omega arith)
  section_move workers made (took t) inv e h = (_, pick i e unlock_worker)
  section_move workers made (executing t) inv e h = absurd (omega arith)

  pub awake_move :
      (l : Pc)
      → get_elem? s.threads i ≡ some l
      → s.shared.locked ≡ false
      → total in_section s.threads ≡ 0
      → 0 < awake l
      → (t : State Memory Pc) × Step Move s t
  awake_move submit e f none_in h = absurd (omega arith)
  awake_move submitting e f none_in h = absurd (omega arith)
  awake_move submitted e f none_in h = absurd (omega arith)
  awake_move signalling e f none_in h = absurd (omega arith)
  awake_move starting e f none_in h = (_, pick i e (lock_worker f))
  awake_move checking e f none_in h = absurd (omega (arith, le-total in_section s.threads i e))
  awake_move waiting e f none_in h = absurd (omega arith)
  awake_move woken e f none_in h = (_, pick i e (lock_again f))
  awake_move (took t) e f none_in h = (_, pick i e unlock_worker)
  awake_move (executing t) e f none_in h = (_, pick i e execute_task)

  pub signal_move :
      (l : Pc)
      → get_elem? s.threads i ≡ some l
      → total in_section s.threads ≡ 0
      → 0 < signals l
      → (t : State Memory Pc) × Step Move s t
  signal_move submit e none_in h = absurd (omega arith)
  signal_move submitting e none_in h = absurd (omega arith)
  signal_move submitted e none_in h = absurd (omega (arith, le-total in_section s.threads i e))
  signal_move signalling e none_in h = elim (dec_lt 0 s.shared.waiters) [
    | yes some_waiter ↦ (_, pick i e (signal_one some_waiter))
    | no nobody ↦ (_, pick i e (signal_none (omega arith)))
  ]
  signal_move starting e none_in h = absurd (omega arith)
  signal_move checking e none_in h = absurd (omega arith)
  signal_move waiting e none_in h = absurd (omega arith)
  signal_move woken e none_in h = absurd (omega arith)
  signal_move (took t) e none_in h = absurd (omega arith)
  signal_move (executing t) e none_in h = absurd (omega arith)

  pub wake_move :
      (l : Pc)
      → get_elem? s.threads i ≡ some l
      → 0 < s.shared.signalled
      → 0 < sleeps l
      → (t : State Memory Pc) × Step Move s t
  wake_move submit e some_signal h = absurd (omega arith)
  wake_move submitting e some_signal h = absurd (omega arith)
  wake_move submitted e some_signal h = absurd (omega arith)
  wake_move signalling e some_signal h = absurd (omega arith)
  wake_move starting e some_signal h = absurd (omega arith)
  wake_move checking e some_signal h = absurd (omega arith)
  wake_move waiting e some_signal h = (_, pick i e (wake some_signal))
  wake_move woken e some_signal h = absurd (omega arith)
  wake_move (took t) e some_signal h = absurd (omega arith)
  wake_move (executing t) e some_signal h = absurd (omega arith)

  pub main_move :
      (l : Pc) {t : Task} {ts : List Task}
      → get_elem? s.threads i ≡ some l
      → s.shared.locked ≡ false
      → total in_section s.threads ≡ 0
      → s.shared.todo ≡ t ∷ ts
      → 0 < makes l
      → (t : State Memory Pc) × Step Move s t
  main_move submit e f none_in more h = (_, pick i e (lock_submit more f))
  main_move submitting e f none_in more h =
      absurd (omega (arith, le-total in_section s.threads i e))
  main_move submitted e f none_in more h = absurd (omega (arith, le-total in_section s.threads i e))
  main_move signalling e f none_in more h = signal_move signalling e none_in (omega arith)
  main_move starting e f none_in more h = absurd (omega arith)
  main_move checking e f none_in more h = absurd (omega arith)
  main_move waiting e f none_in more h = absurd (omega arith)
  main_move woken e f none_in more h = absurd (omega arith)
  main_move (took t) e f none_in more h = absurd (omega arith)
  main_move (executing t) e f none_in more h = absurd (omega arith)
