-- ===== src/ThreadYt/Recursive/Filled.antt =====
-- The threads of `thread_recursive_mutex.c` end, and none of their additions is lost.
use sysprog_solutions.Common.{
  ℕ, zero, suc, some, inl, inr, ◌≤◌, ◌<◌, get_elem?, ◌≡◌, ◌+◌, ◌*◌, ◌-◌, arith, ◌⊎◌, total,
  total-set, total-pos, le-total, total_mono, two-le-total, total-replicate, List, refl, set, ◌≢◌,
  get_elem?-set, subst, sym, replicate, ◌∙◌, ap, total-add,
}
use sysprog_solutions.ThreadYt.Recursive.{
  Memory, Pc, Move, started, locking, loaded, unlocking, lock_first, lock_again, load, store,
  unlock,
}
use sysprog_solutions.ThreadYt.System.{State, Reach, Step, pick, Reach-invariant}
use native.Mathlib.Decide.{dec_lt}

-- The locks that a thread holds.
abbrev held : Pc → ℕ
held (locking k) = k
held (loaded v) = 5
held (unlocking k) = k

-- A thread that has the mutex.
abbrev pub in_section : Pc → ℕ
in_section (locking zero) = 0
in_section (unlocking zero) = 0
in_section _ = 1

abbrev unadded : Pc → ℕ
unadded (unlocking k) = 0
unadded _ = 1

-- The moves that are left to a thread.
abbrev todo : Pc → ℕ
todo (locking k) = 12 - k
todo (loaded v) = 6
todo (unlocking k) = k

abbrev Good : ℕ → Pc → Type 0
Good fuel (locking k) = k ≤ 5
Good fuel (loaded v) = v ≡ fuel
Good fuel (unlocking k) = k ≤ 5

-- No move but the store changes the fuel, and the thread that stores is alone in the section.
record Inv (n taken : ℕ) (s : State Memory Pc) : Type 0 where
  depth : total held s.threads ≡ s.shared.depth
  alone : total in_section s.threads ≤ 1
  fuel : s.shared.fuel + 50 * total unadded s.threads ≡ 50 + 50 * n
  steps : taken + total todo s.threads ≡ 12 * n
  good : (i : ℕ) (l : Pc) → get_elem? s.threads i ≡ some l → Good s.shared.fuel l

in_section-le : (l : Pc) → in_section l ≤ held l
in_section-le (locking zero) = omega arith
in_section-le (locking (suc k)) = omega arith
in_section-le (loaded v) = omega arith
in_section-le (unlocking zero) = omega arith
in_section-le (unlocking (suc k)) = omega arith

in_section_one : (l : Pc) → in_section l ≤ 1
in_section_one (locking zero) = omega arith
in_section_one (locking (suc k)) = omega arith
in_section_one (loaded v) = omega arith
in_section_one (unlocking zero) = omega arith
in_section_one (unlocking (suc k)) = omega arith

good-set :
    (ls : List Pc) (i : ℕ) (l' : Pc) (fuel : ℕ)
    → ((j : ℕ) (l : Pc) → get_elem? ls j ≡ some l → Good fuel l)
    → Good fuel l'
    → (j : ℕ) (l : Pc) → get_elem? (set ls i l') j ≡ some l
    → Good fuel l
good-set ls i l' fuel good new j l e = elim (get_elem?-set ls i j l' l e) [
  | inl (_, same) ↦ subst (Good fuel) (sym same) new
  | inr (_, old) ↦ good j l old
]

-- Outside the section no value of the fuel matters.
idle : (fuel fuel' : ℕ) (l : Pc) → in_section l ≡ 0 → Good fuel l → Good fuel' l
idle fuel fuel' (locking k) out good = good
idle fuel fuel' (loaded v) out good = absurd (omega arith)
idle fuel fuel' (unlocking k) out good = good

module _ (n taken : ℕ) (m : Memory) (ls : List Pc) (i : ℕ)
    (v : Inv n taken (record { shared = m; threads = ls })) where
  -- Behind a move that changes no fuel.
  keep_fuel :
      (l : Pc) (depth : ℕ) (l' : Pc)
      → get_elem? ls i ≡ some l
      → depth + held l ≡ m.depth + held l'
      → (total in_section ls + in_section l' ≤ 1 + in_section l)
      → unadded l' ≡ unadded l
      → todo l ≡ suc (todo l')
      → Good m.fuel l'
      → Inv n (suc taken) (record { shared = record m { depth = depth }; threads = set ls i l' })
  keep_fuel l depth l' e locks alone same less new = record {
    depth = omega (arith, total-set held ls i l l' e, v.depth);
    alone = omega (arith, total-set in_section ls i l l' e);
    fuel = omega (arith, total-set unadded ls i l l' e, v.fuel);
    steps = omega (arith, total-set todo ls i l l' e, v.steps);
    good = good-set ls i l' m.fuel v.good new;
  }

  others_unloaded :
      (x : ℕ)
      → get_elem? ls i ≡ some (loaded x)
      → (j : ℕ) (l : Pc) → i ≢ j
      → get_elem? ls j ≡ some l
      → in_section l ≡ 0
  others_unloaded x e j l apart e' =
      omega (arith, v.alone, two-le-total in_section ls i j apart e e')

  store_good :
      (x : ℕ)
      → get_elem? ls i ≡ some (loaded x)
      → (j : ℕ) (l : Pc) → get_elem? (set ls i (unlocking 5)) j ≡ some l
      → Good (x + 50) l
  store_good x e j l e' = elim (get_elem?-set ls i j (unlocking 5) l e') [
    | inl (_, same) ↦ subst (Good (x + 50)) (sym same) (omega arith)
    | inr (apart, old) ↦ idle m.fuel (x + 50) l (others_unloaded x e j l apart old) (v.good j l old)
  ]

  keep :
      (l : Pc) (m' : Memory) (l' : Pc)
      → get_elem? ls i ≡ some l
      → Move m l m' l'
      → Inv n (suc taken) (record { shared = m'; threads = set ls i l' })
  keep l m' l' e (lock_first free) =
      keep_fuel (locking 0) 1 (locking 1) e (omega arith)
        (omega (arith, total_mono in_section held in_section-le ls, v.depth)) refl (omega arith)
        (omega arith)
  keep l m' l' e (lock_again {k} lt) =
      keep_fuel (locking (suc k)) (m.depth + 1) (locking (suc (suc k))) e (omega arith)
        (omega (arith, v.alone)) refl (omega arith) (omega arith)
  keep l m' l' e load =
      keep_fuel (locking 5) m.depth (loaded m.fuel) e (omega arith) (omega (arith, v.alone)) refl
        (omega arith) refl
  keep l m' l' e (unlock {k}) =
      keep_fuel (unlocking (suc k)) (m.depth - 1) (unlocking k) e
        (omega (arith, le-total held ls i e, v.depth))
        (omega (arith, v.alone, in_section_one (unlocking k))) refl (omega arith)
        (omega (arith, v.good i (unlocking (suc k)) e))
  keep l m' l' e (store {v = x}) =
      let same : x ≡ m.fuel = v.good i (loaded x) e in
      record {
        depth = omega (arith, total-set held ls i (loaded x) (unlocking 5) e, v.depth);
        alone = omega (arith, total-set in_section ls i (loaded x) (unlocking 5) e, v.alone);
        fuel = omega (arith, total-set unadded ls i (loaded x) (unlocking 5) e, v.fuel);
        steps = omega (arith, total-set todo ls i (loaded x) (unlocking 5) e, v.steps);
        good = store_good x e;
      }

held-le : (l : Pc) (fuel : ℕ) → Good fuel l → held l + unadded l ≤ todo l
held-le (locking k) fuel h = omega arith
held-le (loaded v) fuel h = omega arith
held-le (unlocking k) fuel h = omega arith

started-Good : (n i : ℕ) (l : Pc) → get_elem? (replicate n (locking 0)) i ≡ some l → l ≡ locking 0
started-Good zero i l e = cc
started-Good (suc n) zero l e = cc
started-Good (suc n) (suc i) l e = started-Good n i l e

Reach-Inv :
    (n : ℕ) {taken : ℕ} {t : State Memory Pc} → Reach Move (started n) taken t → Inv n taken t
Reach-Inv n r =
    Reach-invariant (Inv n) (λ k m ls i l m' l' e mv v. keep n k m ls i v l m' l' e mv)
      (record {
        depth = omega (arith, total-replicate held n (locking 0));
        alone = omega (arith, total-replicate in_section n (locking 0));
        fuel = omega (arith, total-replicate unadded n (locking 0));
        steps = omega (arith, total-replicate todo n (locking 0));
        good = λ i l e. subst (Good 50) (sym (started-Good n i l e)) (omega arith);
      })
      r

-- A thread that is not at its end moves where it has the mutex, or where no thread has it.
thread_moves :
    (s : State Memory Pc) (i : ℕ) (l : Pc)
    → get_elem? s.threads i ≡ some l
    → Good s.shared.fuel l
    → 0 < todo l
    → (0 < held l) ⊎ (s.shared.depth ≡ 0)
    → (t : State Memory Pc) × Step Move s t
thread_moves s i (locking zero) e good h (inl has) = absurd (omega arith)
thread_moves s i (locking zero) e good h (inr free) = (_, pick i e (lock_first free))
thread_moves s i (locking (suc k)) e good h turn = elim (dec_lt (suc k) 5) [
  | yes lt ↦ (_, pick i e (lock_again lt))
  | no all ↦
      let five : suc k ≡ 5 = omega arith in
      let at : get_elem? s.threads i ≡ some (locking 5) = e ∙ ap (λ x. some (locking x)) five in
      (_, pick i at load)
]
thread_moves s i (loaded v) e good h turn = (_, pick i e store)
thread_moves s i (unlocking zero) e good h turn = absurd (omega arith)
thread_moves s i (unlocking (suc k)) e good h turn = (_, pick i e unlock)

abbrev active : Pc → ℕ
active l = held l + unadded l

none_active :
    (n taken : ℕ) (t : State Memory Pc)
    → Inv n taken t
    → total todo t.threads ≡ 0
    → total active t.threads ≡ 0
none_active n taken t v none_left = elim (dec_lt 0 (total active t.threads)) [
  | no idle_all ↦ omega arith
  | yes some_active ↦
      let (i, l, e, has) = total-pos active t.threads some_active in
      absurd (omega (arith, held-le l t.shared.fuel (v.good i l e), le-total todo t.threads i e))
]

ended :
    (n taken : ℕ) (t : State Memory Pc)
    → Inv n taken t
    → total todo t.threads ≡ 0
    → (taken ≡ 12 * n) × (t.shared.depth ≡ 0) × (t.shared.fuel ≡ 50 + 50 * n)
ended n taken t v none_left =
    let none = none_active n taken t v none_left in
    let sum = total-add held unadded t.threads in
    (omega (arith, v.steps), omega (arith, v.depth, none, sum), omega (arith, v.fuel, none, sum))

unended_moves :
    (n taken : ℕ) (t : State Memory Pc)
    → Inv n taken t
    → 0 < total todo t.threads
    → (u : State Memory Pc) × Step Move t u
unended_moves n taken t v left = elim (dec_lt 0 t.shared.depth) [
  | yes locked ↦
      let (i, l, e, has) = total-pos held t.threads (omega (arith, v.depth)) in
      let good = v.good i l e in
      thread_moves t i l e good (omega (arith, held-le l t.shared.fuel good)) (inl has)
  | no free ↦
      let (i, l, e, some_left) = total-pos todo t.threads left in
      thread_moves t i l e (v.good i l e) some_left (inr (omega arith))
]

-- In any interleaving of `n` threads of thread_recursive_mutex.c, no two of them are between their
-- first lock and their last unlock at once, and some thread can move until all have ended. They have
-- ended behind 12 n moves, and then the mutex is free and `fuel` is 50 + 50 n: no addition is lost.
pub Reach-filled_or_moves :
    (n : ℕ) {taken : ℕ} {t : State Memory Pc}
    → Reach Move (started n) taken t
    → (total in_section t.threads ≤ 1)
      × (((taken ≡ 12 * n) × (t.shared.depth ≡ 0) × (t.shared.fuel ≡ 50 + 50 * n))
          ⊎ ((taken < 12 * n) × (u : State Memory Pc) × Step Move t u))
Reach-filled_or_moves n {taken} {t} r =
    let v = Reach-Inv n r in
    (
      v.alone,
      elim (dec_lt 0 (total todo t.threads)) [
        | no done ↦ inl (ended n taken t v (omega arith))
        | yes left ↦
            let (u, step) = unended_moves n taken t v left in inr (omega (arith, v.steps), u, step)
      ],
    )
