-- ===== src/ThreadYt/Trylock/Chefs.antt =====
-- No two chefs have the same stove, and some chef can always go on.
use sysprog_solutions.Common.{
  ℕ, zero, suc, refl, some, none, true, false, Bool, inl, inr, Option, List, ◌-◌, if◌then◌else◌,
  get_elem?, length, ◌<◌, ◌==◌, set, ◌≡◌, get_elem?-set_self, lt-of-get_elem?, ap, arith, sym,
  length-set, ◌∙◌, get_elem?-set_ne, ◌+◌, ◌≢◌, ◌≤◌, replicate, get_elem?-lt, ◌⊎◌, le-total,
  total-set, total, total-replicate, total-pos,
}
use sysprog_solutions.ThreadYt.Trylock.{
  trying, waiting, cooking, leaving, gone, try_free, try_next, try_last, wait_over, cook, no_fuel,
  unlock, State, Pc, Memory, Move, started,
}
use sysprog_solutions.ThreadYt.System.{State, bit, Step, Reach, bit-le, pick, Reach-invariant}
use native.Mathlib.Decide.{ℕ_discrete, dec_lt}

-- Threads between lock and unlock of stove `j`.
abbrev pub at_stove : ℕ → Pc → ℕ
at_stove j (cooking i) = if i == j then 1 else 0
at_stove j (leaving i) = if i == j then 1 else 0
at_stove j _ = 0

abbrev lock_bit : Option Bool → ℕ
lock_bit none = 0
lock_bit (some b) = bit b

-- Threads at a stove that is not there.
abbrev lost : Pc → ℕ
lost (trying i) = i - 3
lost (cooking i) = i - 3
lost (leaving i) = i - 3
lost _ = 0

record Counts (s : State Memory Pc) : Type 0 where
  locks : length s.shared.locked ≡ 4
  stoves : length s.shared.stove_fuel ≡ 4
  found : total lost s.threads ≡ 0

record Inv (s : State Memory Pc) : Type 0 where
  counts : Counts s
  mutex : (j : ℕ) → total (at_stove j) s.threads ≡ lock_bit (get_elem? s.shared.locked j)

lock_bit-set :
    (locks : List Bool) (i j : ℕ) (b : Bool)
    → i < length locks
    → lock_bit (get_elem? (set locks i b) j)
      ≡ (if i == j then bit b else lock_bit (get_elem? locks j))
lock_bit-set locks i j b inside = elim (ℕ_discrete i j) [
  | yes same ↦
      let there = get_elem?-set_self locks i b inside in
      let there' : get_elem? (set locks i b) j ≡ some b =
        ap (get_elem? (set locks i b)) (sym same) ∙ there in
      rw there' (ground arith)
  | no differ ↦ rw (get_elem?-set_ne locks i j b differ) (ground arith)
]

lock_bit-le : (o : Option Bool) → lock_bit o ≤ 1
lock_bit-le none = omega arith
lock_bit-le (some b) = bit-le b

-- A lock of stove `k` that changes with the thread that takes it or gives it back.
change_lock :
    (locks : List Bool) (ls : List Pc) (i k j : ℕ) (l l' : Pc) (b : Bool)
    → get_elem? ls i ≡ some l
    → k < length locks
    → total (at_stove j) ls ≡ lock_bit (get_elem? locks j)
    → (k ≡ j → lock_bit (get_elem? locks j) + at_stove j l' ≡ bit b + at_stove j l)
    → (k ≢ j → at_stove j l ≡ at_stove j l')
    → total (at_stove j) (set ls i l') ≡ lock_bit (get_elem? (set locks k b) j)
change_lock locks ls i k j l l' b e inside before here there =
    let sum = total-set (at_stove j) ls i l l' e in
    elim (ℕ_discrete k j) [
      | yes same ↦
          let test : (k == j) ≡ true = ground arith in
          rw (lock_bit-set locks k j b inside, test) (omega (arith, sum, before, here same))
      | no differ ↦
          let test : (k == j) ≡ false = ground arith in
          rw (lock_bit-set locks k j b inside, test) (omega (arith, sum, before, there differ))
    ]

Move-Inv :
    (m : Memory) (ls : List Pc) (i : ℕ) (l : Pc) (m' : Memory) (l' : Pc)
    → get_elem? ls i ≡ some l
    → Move m l m' l'
    → Inv (record { shared = m; threads = ls })
    → Inv (record { shared = m'; threads = set ls i l' })
Move-Inv m ls i _ _ _ e (try_free {i = k} free) inv =
    let inside = lt-of-get_elem? m.locked k free in
    record {
      counts =
          omega
            (arith, inv.counts, total-set lost ls i _ (cooking k) e, length-set m.locked k true);
      mutex = λ j.
          change_lock m.locked ls i k j _ (cooking k) true e inside (inv.mutex j)
            (λ same.
              let unlocked : lock_bit (get_elem? m.locked j) ≡ 0 =
                ap (λ n. lock_bit (get_elem? m.locked n)) (sym same) ∙ ap lock_bit free in
              let test : (k == j) ≡ true = ground arith in rw test (omega (arith, unlocked)))
            (λ differ. let test : (k == j) ≡ false = ground arith in rw test refl);
    }
Move-Inv m ls i _ _ _ e (try_next {i = k} busy more) inv =
    let inside = lt-of-get_elem? m.locked k busy in
    record {
      counts = omega (arith, inv.counts, total-set lost ls i _ (trying (k + 1)) e, more);
      mutex = λ j. omega (arith, inv.mutex j, total-set (at_stove j) ls i _ (trying (k + 1)) e);
    }
Move-Inv m ls i _ _ _ e (try_last busy last) inv = record {
  counts = omega (arith, inv.counts, total-set lost ls i _ waiting e);
  mutex = λ j. omega (arith, inv.mutex j, total-set (at_stove j) ls i _ waiting e);
}
Move-Inv m ls i _ _ _ e wait_over inv = record {
  counts = omega (arith, inv.counts, total-set lost ls i _ (trying 1) e);
  mutex = λ j. omega (arith, inv.mutex j, total-set (at_stove j) ls i _ (trying 1) e);
}
Move-Inv m ls i _ _ _ e (cook {i = k} {fuel} {need} there few enough) inv = record {
  counts = omega (
    arith,
    inv.counts,
    total-set lost ls i _ (leaving k) e,
    length-set m.stove_fuel k (fuel - need),
  );
  mutex = λ j. omega (arith, inv.mutex j, total-set (at_stove j) ls i _ (leaving k) e);
}
Move-Inv m ls i _ _ _ e (no_fuel {i = k} there few short) inv = record {
  counts = omega (arith, inv.counts, total-set lost ls i _ (leaving k) e);
  mutex = λ j. omega (arith, inv.mutex j, total-set (at_stove j) ls i _ (leaving k) e);
}
Move-Inv m ls i _ _ _ e (unlock {i = k}) inv = record {
  counts = omega (arith, inv.counts, total-set lost ls i _ gone e, length-set m.locked k false);
  mutex = λ j.
      change_lock m.locked ls i k j _ gone false e (omega (arith, inv.counts, le-total lost ls i e))
        (inv.mutex j)
        (λ same.
          let test : (k == j) ≡ true = ground arith in
          let held : at_stove j (leaving k) ≡ 1 = rw test refl in
          omega (
            arith,
            held,
            inv.mutex j,
            le-total (at_stove j) ls i e,
            lock_bit-le (get_elem? m.locked j),
          ))
        (λ differ. let test : (k == j) ≡ false = ground arith in rw test refl);
}

all_free : (j : ℕ) → lock_bit (get_elem? (replicate 4 false) j) ≡ 0
all_free zero = refl
all_free (suc zero) = refl
all_free (suc (suc zero)) = refl
all_free (suc (suc (suc zero))) = refl
all_free (suc (suc (suc (suc j)))) = refl

Reach-Inv : (chefs : ℕ) {k : ℕ} {s : State Memory Pc} → Reach Move (started chefs) k s → Inv s
Reach-Inv chefs =
    Reach-invariant (λ _ s. Inv s) (λ _. Move-Inv)
      (record {
        counts = omega (arith, total-replicate lost chefs (trying 0));
        mutex = λ j. total-replicate (at_stove j) chefs (trying 0) ∙ omega (arith, all_free j);
      })

-- Chefs that have not gone home.
abbrev pub present : Pc → ℕ
present gone = 0
present _ = 1

try_move :
    (s : State Memory Pc) (i k : ℕ) (b : Bool)
    → get_elem? s.threads i ≡ some (trying k)
    → get_elem? s.shared.locked k ≡ some b
    → (t : State Memory Pc) × Step Move s t
try_move s i k false e at = (_, pick i e (try_free at))
try_move s i k true e at = elim (ℕ_discrete k 3) [
  | yes last ↦ (_, pick i e (try_last at last))
  | no more ↦ (_, pick i e (try_next at more))
]

chef_move :
    (s : State Memory Pc) (i : ℕ) (l : Pc)
    → Inv s
    → get_elem? s.threads i ≡ some l
    → 0 < present l
    → (t : State Memory Pc) × Step Move s t
chef_move s i (trying k) inv e h =
    let (b, at) =
      get_elem?-lt s.shared.locked k (omega (arith, inv.counts, le-total lost s.threads i e)) in
    try_move s i k b e at
chef_move s i waiting inv e h = (_, pick i e wait_over)
chef_move s i (cooking k) inv e h =
    let (fuel, there) =
      get_elem?-lt s.shared.stove_fuel k (omega (arith, inv.counts, le-total lost s.threads i e)) in
    (_, pick i e (cook {need = 0} there (omega arith) (omega arith)))
chef_move s i (leaving k) inv e h = (_, pick i e unlock)
chef_move s i gone inv e h = absurd (omega arith)

-- In any order of moves, however many chefs: the chefs that have the lock of a stove are one at
-- most, and some chef can move, or all have gone home.
pub Reach-gone_or_moves :
    (chefs stove : ℕ) {k : ℕ} {s : State Memory Pc}
    → Reach Move (started chefs) k s
    → (total (at_stove stove) s.threads ≤ 1)
      × ((total present s.threads ≡ 0) ⊎ ((t : State Memory Pc) × Step Move s t))
Reach-gone_or_moves chefs stove {s = s} r =
    let inv = Reach-Inv chefs r in
    (
      omega (arith, inv.mutex stove, lock_bit-le (get_elem? s.shared.locked stove)),
      elim (dec_lt 0 (total present s.threads)) [
        | no home ↦ inl (omega arith)
        | yes here ↦
            let (i, l, e, pos) = total-pos present s.threads here in inr (chef_move s i l inv e pos)
      ],
    )
