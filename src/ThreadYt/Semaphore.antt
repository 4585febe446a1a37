-- ===== src/ThreadYt/Semaphore.antt =====
-- src/thread_yt/thread_semaphore.c and thread_login_queue.c: threads that hold a semaphore for a
-- while. Both have the same routine.
use sysprog_solutions.Common.{
  ℕ, suc, some, ◌+◌, get_elem?, replicate, ◌≡◌, ◌*◌, arith, set, List, ◌≤◌, ◌<◌, ◌-◌, ◌⊎◌, length,
  length-replicate, inl, length-set, ◌∙◌, inr, total-set, total, total-replicate, total-add,
  total-le, total-pos,
}
use sysprog_solutions.ThreadYt.System.{State, Reach, Reach-invariant, Step, pick}
use native.Mathlib.Decide.{dec_lt}

-- Before `sem_wait`, behind it, and behind `sem_post`.
pub data Pc : Type 0 where
  waiting inside ended : Pc

-- The value of the semaphore is the shared memory.
pub data Move : ℕ → Pc → ℕ → Pc → Type 0 where
  sem_wait : {value : ℕ} → 0 < value → Move value waiting (value - 1) inside
  sem_post : {value : ℕ} → Move value inside (value + 1) ended

-- `sem_init(&semaphore, 0, value)`, and the threads that `main` creates.
abbrev pub started : ℕ → ℕ → State ℕ Pc
started value threads = record { shared = value; threads = replicate threads waiting }

abbrev pub semaphore_demo : State ℕ Pc
semaphore_demo = started 2 4

abbrev pub login_queue_demo : State ℕ Pc
login_queue_demo = started 32 16

abbrev pub is_inside : Pc → ℕ
is_inside inside = 1
is_inside _ = 0

-- The moves that a thread has left.
abbrev pub moves_left : Pc → ℕ
moves_left waiting = 2
moves_left inside = 1
moves_left ended = 0

record Inv (value threads k : ℕ) (s : State ℕ Pc) : Type 0 where
  held : s.shared + total is_inside s.threads ≡ value
  left : k + total moves_left s.threads ≡ 2 * threads
  size : length s.threads ≡ threads

Move-Inv :
    (value threads k v : ℕ) (ls : List Pc) (i : ℕ) (l : Pc) (v' : ℕ) (l' : Pc)
    → get_elem? ls i ≡ some l
    → Move v l v' l'
    → Inv value threads k (record { shared = v; threads = ls })
    → Inv value threads (suc k) (record { shared = v'; threads = set ls i l' })
Move-Inv value threads k v ls i _ _ _ e (sem_wait pos) inv = record {
  held = omega (arith, inv.held, total-set is_inside ls i waiting inside e);
  left = omega (arith, inv.left, total-set moves_left ls i waiting inside e);
  size = length-set ls i inside ∙ inv.size;
}
Move-Inv value threads k v ls i _ _ _ e sem_post inv = record {
  held = omega (arith, inv.held, total-set is_inside ls i inside ended e);
  left = omega (arith, inv.left, total-set moves_left ls i inside ended e);
  size = length-set ls i ended ∙ inv.size;
}

Reach-Inv :
    (value threads : ℕ) {k : ℕ} {s : State ℕ Pc}
    → Reach Move (started value threads) k s
    → Inv value threads k s
Reach-Inv value threads r =
    Reach-invariant (Inv value threads) (Move-Inv value threads)
      (record {
        held = omega (arith, total-replicate is_inside threads waiting);
        left = omega (arith, total-replicate moves_left threads waiting);
        size = length-replicate threads waiting;
      })
      r

abbrev is_waiting : Pc → ℕ
is_waiting waiting = 1
is_waiting _ = 0

one_place : (l : Pc) → is_inside l + is_waiting l ≤ 1
one_place waiting = omega arith
one_place inside = omega arith
one_place ended = omega arith

inside-moves : (l : Pc) → 0 < is_inside l → 0 < moves_left l
inside-moves waiting h = omega arith
inside-moves inside h = omega arith
inside-moves ended h = absurd (omega arith)

can_move :
    (s : State ℕ Pc) (i : ℕ) (l : Pc)
    → get_elem? s.threads i ≡ some l
    → 0 < moves_left l
    → (0 < s.shared) ⊎ (0 < is_inside l)
    → (t : State ℕ Pc) × Step Move s t
can_move s i waiting e h (inl pos) = (_, pick i e (sem_wait pos))
can_move s i waiting e h (inr pos) = absurd (omega arith)
can_move s i inside e h p = (_, pick i e sem_post)
can_move s i ended e h p = absurd (omega arith)

-- In any order of moves of `threads` threads at a semaphore of `value`, which is not 0: `value`
-- threads at most are behind their `sem_wait`; those that wait are no more than the places that are
-- free and the threads that the semaphore has no place for; and each thread has moved twice, or
-- fewer moves were made and some thread can move.
pub Reach-bounded :
    (value threads : ℕ) {k : ℕ} {s : State ℕ Pc}
    → 0 < value
    → Reach Move (started value threads) k s
    → (total is_inside s.threads ≤ value)
      × (total is_waiting s.threads + value ≤ s.shared + threads)
      × ((k ≡ 2 * threads) ⊎ ((k < 2 * threads) × (t : State ℕ Pc) × Step Move s t))
Reach-bounded value threads {k} {s} pos r =
    let inv = Reach-Inv value threads r in
    (
      omega (arith, inv.held),
      omega (
        arith,
        inv.held,
        inv.size,
        total-add is_inside is_waiting s.threads,
        total-le (λ l. is_inside l + is_waiting l) s.threads 1 one_place,
      ),
      elim (dec_lt k (2 * threads)) [
        | no over ↦ inl (omega (arith, inv.left))
        | yes more ↦ elim (dec_lt 0 (total is_inside s.threads)) [
          | yes some_inside ↦
              let (i, l, e, here) = total-pos is_inside s.threads some_inside in
              let (t, step) = can_move s i l e (inside-moves l here) (inr here) in
              inr (more, t, step)
          | no none_inside ↦
              let (i, l, e, here) = total-pos moves_left s.threads (omega (arith, inv.left)) in
              let (t, step) = can_move s i l e here (inl (omega (arith, inv.held))) in
              inr (more, t, step)
        ]
      ],
    )
