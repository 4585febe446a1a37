-- ===== src/ThreadYt/Pool/Done.antt =====
-- The threads of `thread_pool.c` go on until every task is done.
use sysprog_solutions.Common.{
  ℕ, [], ◌∷◌, refl, false, List, ◌≡◌, ◌<◌, length, ◌+◌, arith, ◌≤◌, ap, ◌⊎◌, ◌++◌, inr, inl, sym,
  append-nil, ◌∙◌, total, total-pos, total_mono, total-add,
}
use sysprog_solutions.ThreadYt.Pool.Invariant.{Inv, Reach-Inv}
use sysprog_solutions.ThreadYt.Pool.Threads.{
  submit, submitting, submitted, signalling, starting, checking, waiting, woken, took, executing,
  Memory, Pc, Move, Order, in_section, awake, sleeps, makes, signals, AnyMove, started,
}
use sysprog_solutions.ThreadYt.System.{State, Step, Reach, bit_zero}
use sysprog_solutions.ThreadYt.Pool.{Task}
use sysprog_solutions.ThreadYt.Pool.Contents.{IsQueue}
use native.Mathlib.Decide.{dec_lt}
use sysprog_solutions.ThreadYt.Pool.Progress.{
  main_move, section_move, awake_move, signal_move, wake_move,
}

-- Neither `main` at its loop or behind it, nor a worker that waits for a task.
abbrev pub busy : Pc → ℕ
busy submit = 0
busy waiting = 0
busy _ = 1

busy-le : (l : Pc) → busy l ≤ in_section l + awake l + signals l
busy-le submit = omega arith
busy-le submitting = omega arith
busy-le submitted = omega arith
busy-le signalling = omega arith
busy-le starting = omega arith
busy-le checking = omega arith
busy-le waiting = omega arith
busy-le woken = omega arith
busy-le (took t) = omega arith
busy-le (executing t) = omega arith

-- Where the lock is free and nobody has a signal or work to do.
quiet :
    (s : State Memory Pc) (workers : ℕ) (made : List Task)
    → Inv workers made s
    → s.shared.locked ≡ false
    → total in_section s.threads ≡ 0
    → total awake s.threads ≡ 0
    → total signals s.threads ≡ 0
    → s.shared.signalled ≡ 0
    → ((s.shared.taken ≡ made) × (total busy s.threads ≡ 0))
      ⊎ ((t : State Memory Pc) × Step Move s t)
quiet s workers made inv free none_in none_awake no_signal no_token =
    at_todo s.shared.todo refl inv.order.tasks inv.order.queue inv.order.order
  where
    at_todo :
        (todo : List Task)
        → s.shared.todo ≡ todo
        → (tasks : List Task) → IsQueue s.shared.queue tasks
        → s.shared.taken ++ (tasks ++ s.shared.todo) ≡ made
        → ((s.shared.taken ≡ made) × (total busy s.threads ≡ 0))
          ⊎ ((t : State Memory Pc) × Step Move s t)
    at_todo (t ∷ ts) more tasks is order =
        let (i, l, e, here) = total-pos makes s.threads (omega (arith, inv.counts.main)) in
        inr (main_move s i l e free none_in more here)
    at_todo [] over (t ∷ tasks) is order = absurd (
        omega
          (arith, is.count, inv.heard (omega (arith, is.count)), none_awake, no_signal, no_token))
    at_todo [] over [] is order = inl (
      sym (append-nil s.shared.taken) ∙ ap (λ r. s.shared.taken ++ r) (sym over) ∙ order,
      omega (
        arith,
        total_mono busy (λ l. in_section l + awake l + signals l) busy-le s.threads,
        total-add (λ l. in_section l + awake l) signals s.threads,
        total-add in_section awake s.threads,
      ),
    )

done_or_move :
    (s : State Memory Pc) (workers : ℕ) (made : List Task)
    → Inv workers made s
    → ((s.shared.taken ≡ made) × (total busy s.threads ≡ 0))
      ⊎ ((t : State Memory Pc) × Step Move s t)
done_or_move s workers made inv =
    let ls = s.threads in
    elim (dec_lt 0 (total in_section ls)) [
      | yes held ↦
          let (i, l, e, here) = total-pos in_section ls held in
          inr (section_move s i workers made l inv e here)
      | no unheld ↦
          let free = bit_zero s.shared.locked (omega (arith, inv.counts.mutex)) in
          elim (dec_lt 0 (total awake ls)) [
            | yes some_awake ↦
                let (i, l, e, here) = total-pos awake ls some_awake in
                inr (awake_move s i l e free (omega arith) here)
            | no none_awake ↦ elim (dec_lt 0 (total signals ls)) [
              | yes some_signal ↦
                  let (i, l, e, here) = total-pos signals ls some_signal in
                  inr (signal_move s i l e (omega arith) here)
              | no no_signal ↦ elim (dec_lt 0 s.shared.signalled) [
                | yes token ↦
                    let (i, l, e, here) = total-pos sleeps ls (omega (arith, inv.counts.asleep)) in
                    inr (wake_move s i l e token here)
                | no no_token ↦
                    quiet s workers made inv free (omega arith) (omega arith) (omega arith)
                      (omega arith)
              ]
            ]
          ]
    ]

-- Up to 256 tasks, `workers` workers, one or more, and any order of moves, also with wake-ups that no
-- signal made: the tasks that were taken, those in the array and those that `main` has not made yet
-- are all tasks in their order; and some thread can make a move of the program, or all tasks were
-- taken, `main` waits to join and all workers wait for a task, for ever.
pub Reach-done_or_move :
    (workers : ℕ) (made cells : List Task) {k : ℕ} {s : State Memory Pc}
    → 0 < workers
    → length cells ≡ 256
    → length made ≤ 256
    → Reach AnyMove (started workers cells made) k s
    → Order made s.shared.queue s.shared.taken s.shared.todo
      × (((s.shared.taken ≡ made) × (total busy s.threads ≡ 0))
          ⊎ ((t : State Memory Pc) × Step Move s t))
Reach-done_or_move workers made cells {s = s} some_worker size fits r =
    let inv = Reach-Inv workers made some_worker cells size fits r in
    (inv.order, done_or_move s workers made inv)
