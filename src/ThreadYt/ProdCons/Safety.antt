-- ===== src/ThreadYt/ProdCons/Safety.antt =====
-- What holds of the buffer, and that the threads never stop.
use sysprog_solutions.Common.{
  ℕ, refl, some, false, List, get_elem?, ◌<◌, length, ◌≤◌, ◌≡◌, ◌+◌, ◌⊎◌, arith, ◌∙◌, inl, ap, inr,
  get_elem?-lt, ◌-◌, le-total, total, total-pos, total_mono, total-add,
}
use sysprog_solutions.ThreadYt.ProdCons.{
  Memory, Pc, full_handed, slot_reserved, taking, consume, item_reserved, Move, started, adding,
  rand, wait_empty, lock_add, add, taken, unlock_add, freeing, post_full, produce, wait_full, added,
  posting, lock_take, unlock_take, post_empty,
}
use sysprog_solutions.ThreadYt.System.{State, Reach, Step, pick, bit_zero, bit-le}
use sysprog_solutions.ThreadYt.ProdCons.Invariant.{
  in_section, consumes, produces, reserves, claims, Reach-Inv, Inv,
}
use native.Mathlib.Decide.{dec_lt}

-- Threads that are about to write the place behind the count, and to read the one before it.
abbrev pub adds : Pc → ℕ
adds (adding x) = 1
adds _ = 0

abbrev pub takes : Pc → ℕ
takes taking = 1
takes _ = 0

adds-reserves : (l : Pc) → adds l ≤ reserves l
adds-reserves produce = omega arith
adds-reserves (full_handed x) = omega arith
adds-reserves (slot_reserved x) = omega arith
adds-reserves (adding x) = omega arith
adds-reserves added = omega arith
adds-reserves posting = omega arith
adds-reserves consume = omega arith
adds-reserves item_reserved = omega arith
adds-reserves taking = omega arith
adds-reserves (taken y) = omega arith
adds-reserves (freeing y) = omega arith

takes-claims : (l : Pc) → takes l ≤ claims l
takes-claims produce = omega arith
takes-claims (full_handed x) = omega arith
takes-claims (slot_reserved x) = omega arith
takes-claims (adding x) = omega arith
takes-claims added = omega arith
takes-claims posting = omega arith
takes-claims consume = omega arith
takes-claims item_reserved = omega arith
takes-claims taking = omega arith
takes-claims (taken y) = omega arith
takes-claims (freeing y) = omega arith

-- What a thread needs to go on.
abbrev Able : Memory → Pc → Type 0
Able m (full_handed x) = 0 < m.sem_empty
Able m (slot_reserved x) = m.locked ≡ false
Able m consume = 0 < m.sem_full
Able m item_reserved = m.locked ≡ false
Able m taking = (0 < m.count) × (m.count ≤ length m.buffer)
Able m _ = Unit

move_of :
    (s : State Memory Pc) (i : ℕ) (l : Pc)
    → get_elem? s.threads i ≡ some l
    → Able s.shared l
    → (t : State Memory Pc) × Step Move s t
move_of s i produce e a = (_, pick i e (rand {x = 0} (omega arith)))
move_of s i (full_handed x) e a = (_, pick i e (wait_empty a))
move_of s i (slot_reserved x) e a = (_, pick i e (lock_add a))
move_of s i (adding x) e a = (_, pick i e add)
move_of s i added e a = (_, pick i e unlock_add)
move_of s i posting e a = (_, pick i e post_full)
move_of s i consume e a = (_, pick i e (wait_full a))
move_of s i item_reserved e a = (_, pick i e (lock_take a))
move_of s i taking e (some_there, inside) =
    let (y, at) = get_elem?-lt s.shared.buffer (s.shared.count - 1) (omega arith) in
    (_, pick i e (Move.take at))
move_of s i (taken y) e a = (_, pick i e unlock_take)
move_of s i (freeing y) e a = (_, pick i e post_empty)

-- A thread with a place or a number can go on while the mutex is free, or while it holds it.
busy-Able :
    (m : Memory) (l : Pc)
    → 0 < reserves l + claims l
    → (m.locked ≡ false) ⊎ (0 < in_section l)
    → (l ≡ taking → Able m taking)
    → Able m l
busy-Able m produce h f a = tt
busy-Able m (full_handed x) h f a = absurd (omega arith)
busy-Able m (slot_reserved x) h (inl free) a = free
busy-Able m (slot_reserved x) h (inr held) a = absurd (omega arith)
busy-Able m (adding x) h f a = tt
busy-Able m added h f a = tt
busy-Able m posting h f a = tt
busy-Able m consume h f a = absurd (omega arith)
busy-Able m item_reserved h (inl free) a = free
busy-Able m item_reserved h (inr held) a = absurd (omega arith)
busy-Able m taking h f a = a refl
busy-Able m (taken y) h f a = tt
busy-Able m (freeing y) h f a = tt

section-busy : (l : Pc) → in_section l ≤ reserves l + claims l
section-busy produce = omega arith
section-busy (full_handed x) = omega arith
section-busy (slot_reserved x) = omega arith
section-busy (adding x) = omega arith
section-busy added = omega arith
section-busy posting = omega arith
section-busy consume = omega arith
section-busy item_reserved = omega arith
section-busy taking = omega arith
section-busy (taken y) = omega arith
section-busy (freeing y) = omega arith

producer-Able :
    (m : Memory) (l : Pc) → 0 < produces l → 0 < m.sem_empty → m.locked ≡ false → Able m l
producer-Able m produce h e f = tt
producer-Able m (full_handed x) h e f = e
producer-Able m (slot_reserved x) h e f = f
producer-Able m (adding x) h e f = tt
producer-Able m added h e f = tt
producer-Able m posting h e f = tt
producer-Able m consume h e f = absurd (omega arith)
producer-Able m item_reserved h e f = absurd (omega arith)
producer-Able m taking h e f = absurd (omega arith)
producer-Able m (taken y) h e f = absurd (omega arith)
producer-Able m (freeing y) h e f = absurd (omega arith)

consumer-Able :
    (m : Memory) (l : Pc)
    → 0 < consumes l
    → 0 < m.sem_full
    → m.locked ≡ false
    → Able m taking
    → Able m l
consumer-Able m produce h e f a = absurd (omega arith)
consumer-Able m (full_handed x) h e f a = absurd (omega arith)
consumer-Able m (slot_reserved x) h e f a = absurd (omega arith)
consumer-Able m (adding x) h e f a = absurd (omega arith)
consumer-Able m added h e f a = absurd (omega arith)
consumer-Able m posting h e f a = absurd (omega arith)
consumer-Able m consume h e f a = e
consumer-Able m item_reserved h e f a = f
consumer-Able m taking h e f a = a
consumer-Able m (taken y) h e f a = tt
consumer-Able m (freeing y) h e f a = tt

-- A thread that is about to take a number finds one.
taking-Able :
    (producers : ℕ) (s : State Memory Pc)
    → Inv producers s
    → (i : ℕ) (l : Pc) → get_elem? s.threads i ≡ some l
    → l ≡ taking
    → Able s.shared taking
taking-Able producers s inv i l e is =
    let claim = le-total claims s.threads i (e ∙ ap some is) in omega (arith, inv, claim)

some_move :
    (producers : ℕ) (s : State Memory Pc)
    → 0 < producers
    → Inv producers s
    → (t : State Memory Pc) × Step Move s t
some_move producers s some_producer inv =
    let ls = s.threads in
    let busy = λ (l : Pc). reserves l + claims l in
    let inside = taking-Able producers s inv in
    elim (dec_lt 0 (total in_section ls)) [
      | yes held ↦
          let (i, l, e, here) = total-pos in_section ls held in
          move_of s i l e
            (busy-Able s.shared l (omega (arith, section-busy l)) (inr here) (inside i l e))
      | no free ↦
          let open_lock : s.shared.locked ≡ false =
            bit_zero s.shared.locked (omega (arith, inv.mutex)) in
          elim (dec_lt 0 (total busy ls)) [
            | yes some_busy ↦
                let (i, l, e, here) = total-pos busy ls some_busy in
                move_of s i l e (busy-Able s.shared l here (inl open_lock) (inside i l e))
            | no none_busy ↦
                let sums = total-add reserves claims ls in
                elim (dec_lt 0 s.shared.sem_empty) [
                  | yes places ↦
                      let (i, l, e, here) = total-pos produces ls (omega (arith, inv.makers)) in
                      move_of s i l e (producer-Able s.shared l here places open_lock)
                  | no full_up ↦
                      let (i, l, e, here) = total-pos consumes ls (omega (arith, inv.consumers)) in
                      move_of s i l e (
                        consumer-Able s.shared l here (omega (arith, inv, sums)) open_lock
                          (omega (arith, inv, sums)))
                ]
          ]
    ]

-- With one producer or more, in every reachable state: the buffer has a place for each thread that
-- is about to add to it, and a number for each that is about to take one, the count is no more than
-- the places, one thread at most is between lock and unlock, and some thread can move.
pub Reach-move :
    (producers : ℕ) (buffer : List ℕ) {k : ℕ} {s : State Memory Pc}
    → 0 < producers
    → length buffer ≡ 10
    → Reach Move (started producers buffer) k s
    → (s.shared.count + total adds s.threads ≤ length s.shared.buffer)
      × (total takes s.threads ≤ s.shared.count)
      × (s.shared.count ≤ length s.shared.buffer)
      × (total in_section s.threads ≤ 1)
      × (t : State Memory Pc) × Step Move s t
Reach-move producers buffer {s = s} some_producer ten r =
    let inv = Reach-Inv producers buffer ten r in
    let (t, step) = some_move producers s some_producer inv in
    (
      omega (arith, inv, total_mono adds reserves adds-reserves s.threads),
      omega (arith, inv, total_mono takes claims takes-claims s.threads),
      omega (arith, inv),
      omega (arith, inv, bit-le s.shared.locked),
      t,
      step,
    )
