-- ===== src/ThreadYt/Deadlock/Outcome.antt =====
-- How `thread_deadlock.c` ends: with all the fuel, or never.
use mathlib.Core.Option.{some-injective}
use sysprog_solutions.Common.{
  le-total, total, total-all, ℕ, suc, refl, some, List, ◌<◌, get_elem?, ◌≢◌, ◌≡◌, arith, set, ◌+◌,
  get_elem?-set_ne, ap, ◌*◌, sym, ◌∙◌,
}
use sysprog_solutions.ThreadYt.Deadlock.{
  has_fuel, has_water, ended, even_fuel, even_water, odd_water, odd_fuel, add_fuel, set_water,
  unlock_fuel, unlock_water, State, Pc, Memory, Move, started, bit,
}
use sysprog_solutions.ThreadYt.System.{State, Reach, Reach-invariant, later, bit, begin, pick}
use sysprog_solutions.ThreadYt.Deadlock.Sums.{
  Move-Inv, holds_water, Reach-Inv, Inv, holds_fuel, filled, unwritten,
}

-- Thread `i` has the fuel, thread `j` has the water.
record Crossed (threads i j : ℕ) (s : State Memory Pc) : Type 0 where
  inv : Inv threads s
  first : get_elem? s.threads i ≡ some has_fuel
  second : get_elem? s.threads j ≡ some has_water

-- A move of a thread elsewhere leaves a thread where it is.
elsewhere :
    (ls : List Pc) (k i : ℕ) (l a l' : Pc)
    → get_elem? ls k ≡ some l
    → get_elem? ls i ≡ some a
    → l ≢ a
    → get_elem? (set ls k l') i ≡ some a
elsewhere ls k i l a l' at_k at_i other =
    get_elem?-set_ne ls k i l'
      (λ same. other (some-injective l a (sym at_k ∙ ap (get_elem? ls) same ∙ at_i)))
    ∙ at_i

-- Where two threads wait for each other, no thread that moves is one of them.
Crossed-ne :
    (n i j k : ℕ) (m : Memory) (ls : List Pc) (l : Pc) (m' : Memory) (l' : Pc)
    → Crossed n i j (record { shared = m; threads = ls })
    → Move m l m' l'
    → (l ≢ has_fuel) × (l ≢ has_water)
Crossed-ne n i j k m ls _ _ _ c (even_fuel h) = (λ e. cc, λ e. cc)
Crossed-ne n i j k m ls _ _ _ c (even_water h) =
    let free : bit m.water_locked ≡ 0 = ap bit h in
    absurd (omega (arith, c.inv.counts.water_mutex, le-total holds_water ls j c.second))
Crossed-ne n i j k m ls _ _ _ c (odd_water h) = (λ e. cc, λ e. cc)
Crossed-ne n i j k m ls _ _ _ c (odd_fuel h) =
    let free : bit m.fuel_locked ≡ 0 = ap bit h in
    absurd (omega (arith, c.inv.counts.fuel_mutex, le-total holds_fuel ls i c.first))
Crossed-ne n i j k m ls _ _ _ c add_fuel = (λ e. cc, λ e. cc)
Crossed-ne n i j k m ls _ _ _ c set_water = (λ e. cc, λ e. cc)
Crossed-ne n i j k m ls _ _ _ c unlock_fuel = (λ e. cc, λ e. cc)
Crossed-ne n i j k m ls _ _ _ c unlock_water = (λ e. cc, λ e. cc)

Crossed-for_ever :
    (n i j : ℕ) {s : State Memory Pc} {k : ℕ} {t : State Memory Pc}
    → Crossed n i j s
    → Reach Move s k t
    → Crossed n i j t
Crossed-for_ever n i j =
    Reach-invariant (λ _ t. Crossed n i j t)
      (λ _ m ls k l m' l' e mv c.
        let (not_fuel, not_water) = Crossed-ne n i j k m ls l m' l' c mv in
        record {
          inv = Move-Inv n m ls k l m' l' e mv c.inv;
          first = elsewhere ls k i l has_fuel l' e c.first not_fuel;
          second = elsewhere ls k j l has_water l' e c.second not_water;
        })

-- The fuel is 50, and 50 more for each thread that has added; and where one thread has the fuel
-- and another has the water, both stay there in all later states: the program never ends.
pub Reach-crossed :
    (threads i j : ℕ) {k : ℕ} {s : State Memory Pc} {n : ℕ} {t : State Memory Pc}
    → Reach Move (started threads) k s
    → get_elem? s.threads i ≡ some has_fuel
    → get_elem? s.threads j ≡ some has_water
    → Reach Move s n t
    → (get_elem? t.threads i ≡ some has_fuel)
      × (get_elem? t.threads j ≡ some has_water)
      × (t.shared.fuel ≡ 50 + 50 * total filled t.threads)
Reach-crossed threads i j r first second run =
    let begun : Crossed threads i j _ = record {
      inv = Reach-Inv threads r;
      first = first;
      second = second;
    } in
    let c = Crossed-for_ever threads i j begun run in (c.first, c.second, c.inv.counts.fuel)

-- Where all threads have ended, and there was one, each has added 50 to the fuel, and the water is
-- the fuel.
pub Reach-ended :
    (threads : ℕ) {k : ℕ} {s : State Memory Pc}
    → 0 < threads
    → Reach Move (started threads) k s
    → ((i : ℕ) (l : Pc) → get_elem? s.threads i ≡ some l → l ≡ ended)
    → (s.shared.fuel ≡ 50 + 50 * threads) × (s.shared.water ≡ s.shared.fuel)
Reach-ended threads {s = s} some_thread r all =
    let inv = Reach-Inv threads r in
    let sum = total-all filled s.threads 1 (λ i l e. ap filled (all i l e)) in
    let none_left = total-all unwritten s.threads 0 (λ i l e. ap unwritten (all i l e)) in
    (
      omega (arith, inv.counts, sum),
      inv.water (omega (arith, inv.counts.size, sum)) (omega (arith, none_left)),
    )

-- Two threads or more can get there.
pub crossed_reached :
    (n : ℕ)
    → (s : State Memory Pc) × Reach Move (started (suc (suc n))) 2 s
      × (get_elem? s.threads 0 ≡ some has_fuel)
      × (get_elem? s.threads 1 ≡ some has_water)
crossed_reached n = (
  _,
  later (later begin (pick 0 refl (even_fuel refl))) (pick 1 refl (odd_water refl)),
  refl,
  refl,
)
