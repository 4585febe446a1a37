-- ===== src/ThreadYt/ProdCons/Invariant.antt =====
-- How the semaphores, the count and the places of the threads add up.
use sysprog_solutions.Common.{
  ℕ, some, List, ◌+◌, get_elem?, ◌≡◌, set, length, arith, ap, length-set, total, le-total,
  total-set, total-replicate,
}
use sysprog_solutions.ThreadYt.ProdCons.{
  Memory, Pc, slot_reserved, full_handed, added, adding, taken, taking, produce, posting, freeing,
  Move, item_reserved, consume, rand, wait_empty, lock_add, add, wait_full, lock_take, take,
  unlock_take, post_empty, unlock_add, post_full, started,
}
use sysprog_solutions.ThreadYt.System.{State, Reach, Reach-invariant, bit, bit-le}

-- Threads with a free place of the buffer that the count does not have yet.
abbrev pub reserves : Pc → ℕ
reserves (slot_reserved x) = 1
reserves (adding x) = 1
reserves (taken y) = 1
reserves (freeing y) = 1
reserves _ = 0

-- Threads with a number of the buffer that `sem_full` does not have.
abbrev pub claims : Pc → ℕ
claims added = 1
claims posting = 1
claims item_reserved = 1
claims taking = 1
claims _ = 0

abbrev pub in_section : Pc → ℕ
in_section (adding x) = 1
in_section added = 1
in_section taking = 1
in_section (taken y) = 1
in_section _ = 0

abbrev pub consumes : Pc → ℕ
consumes consume = 1
consumes item_reserved = 1
consumes taking = 1
consumes (taken y) = 1
consumes (freeing y) = 1
consumes _ = 0

abbrev pub produces : Pc → ℕ
produces produce = 1
produces (full_handed x) = 1
produces (slot_reserved x) = 1
produces (adding x) = 1
produces added = 1
produces posting = 1
produces _ = 0

-- The ten places, and who may add to them or take from them.
pub record Inv (producers : ℕ) (s : State Memory Pc) : Type 0 where
  pub empty : s.shared.sem_empty + s.shared.count + total reserves s.threads ≡ 10
  pub full : s.shared.sem_full + total claims s.threads ≡ s.shared.count
  pub mutex : total in_section s.threads ≡ bit s.shared.locked
  pub cells : length s.shared.buffer ≡ 10
  pub consumers : total consumes s.threads ≡ 1
  pub makers : total produces s.threads ≡ producers

-- What a move of one thread does to the sums.
changes :
    (ls : List Pc) (i : ℕ) (l l' : Pc)
    → get_elem? ls i ≡ some l
    → (total reserves (set ls i l') + reserves l ≡ total reserves ls + reserves l')
      × (total claims (set ls i l') + claims l ≡ total claims ls + claims l')
      × (total in_section (set ls i l') + in_section l ≡ total in_section ls + in_section l')
      × (total consumes (set ls i l') + consumes l ≡ total consumes ls + consumes l')
      × (total produces (set ls i l') + produces l ≡ total produces ls + produces l')
changes ls i l l' e = (
  total-set reserves ls i l l' e,
  total-set claims ls i l l' e,
  total-set in_section ls i l l' e,
  total-set consumes ls i l l' e,
  total-set produces ls i l l' e,
)

Move-Inv :
    (p n : ℕ) (m : Memory) (ls : List Pc) (i : ℕ) (l : Pc) (m' : Memory) (l' : Pc)
    → get_elem? ls i ≡ some l
    → Move m l m' l'
    → Inv p (record { shared = m; threads = ls })
    → Inv p (record { shared = m'; threads = set ls i l' })
Move-Inv p n m ls i _ _ _ e (rand {x} h) inv = omega (arith, inv, changes ls i _ (full_handed x) e)
Move-Inv p n m ls i _ _ _ e (wait_empty {x} h) inv =
    omega (arith, inv, changes ls i _ (slot_reserved x) e)
Move-Inv p n m ls i _ _ _ e (lock_add {x} h) inv =
    let free : bit m.locked ≡ 0 = ap bit h in omega (arith, inv, changes ls i _ (adding x) e)
Move-Inv p n m ls i _ _ _ e (add {x}) inv =
    omega (arith, inv, changes ls i _ added e, length-set m.buffer m.count x)
Move-Inv p n m ls i _ _ _ e unlock_add inv =
    omega (arith, inv, changes ls i _ posting e, bit-le m.locked)
Move-Inv p n m ls i _ _ _ e post_full inv = omega (arith, inv, changes ls i _ produce e)
Move-Inv p n m ls i _ _ _ e (wait_full h) inv = omega (arith, inv, changes ls i _ item_reserved e)
Move-Inv p n m ls i _ _ _ e (lock_take h) inv =
    let free : bit m.locked ≡ 0 = ap bit h in omega (arith, inv, changes ls i _ taking e)
Move-Inv p n m ls i _ _ _ e (take {y} h) inv =
    omega (arith, inv, changes ls i _ (taken y) e, le-total claims ls i e)
Move-Inv p n m ls i _ _ _ e (unlock_take {y}) inv =
    omega (arith, inv, changes ls i _ (freeing y) e, bit-le m.locked)
Move-Inv p n m ls i _ _ _ e (post_empty {y}) inv = omega (arith, inv, changes ls i _ consume e)

pub Reach-Inv :
    (producers : ℕ) (buffer : List ℕ) {k : ℕ} {s : State Memory Pc}
    → length buffer ≡ 10
    → Reach Move (started producers buffer) k s
    → Inv producers s
unfolding total
Reach-Inv producers buffer ten r =
    Reach-invariant (λ k s. Inv producers s) (λ k. Move-Inv producers k)
      (omega (
        arith,
        ten,
        total-replicate reserves producers produce,
        total-replicate claims producers produce,
        total-replicate in_section producers produce,
        total-replicate consumes producers produce,
        total-replicate produces producers produce,
      ))
      r
