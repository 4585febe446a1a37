-- ===== src/ThreadYt/Deadlock/Sums.antt =====
-- How the fuel, the mutexes and the places of the threads add up.
use sysprog_solutions.Common.{
  total, total-replicate, total-set, ℕ, refl, some, List, ◌<◌, get_elem?, ◌≡◌, arith, set, ◌+◌, ap,
  ◌*◌, length, length-replicate, length-set,
}
use sysprog_solutions.ThreadYt.Deadlock.{
  start, has_fuel, has_water, has_both, fuelled, watered, half, ended, even_fuel, even_water,
  odd_water, odd_fuel, add_fuel, set_water, unlock_fuel, unlock_water, State, Pc, Memory, Move,
  started, bit, bit-le,
}
use sysprog_solutions.ThreadYt.System.{State, Reach, Reach-invariant, bit, bit-le}

abbrev pub holds_fuel : Pc → ℕ
holds_fuel has_fuel = 1
holds_fuel has_both = 1
holds_fuel fuelled = 1
holds_fuel watered = 1
holds_fuel _ = 0

abbrev pub holds_water : Pc → ℕ
holds_water has_water = 1
holds_water has_both = 1
holds_water fuelled = 1
holds_water watered = 1
holds_water half = 1
holds_water _ = 0

abbrev pub filled : Pc → ℕ
filled fuelled = 1
filled watered = 1
filled half = 1
filled ended = 1
filled _ = 0

-- Threads that changed the fuel, and have not yet written the water.
abbrev pub unwritten : Pc → ℕ
unwritten fuelled = 1
unwritten _ = 0

pub record Counts (threads : ℕ) (s : State Memory Pc) : Type 0 where
  pub fuel_mutex : total holds_fuel s.threads ≡ bit s.shared.fuel_locked
  pub water_mutex : total holds_water s.threads ≡ bit s.shared.water_locked
  pub fuel : s.shared.fuel ≡ 50 + 50 * total filled s.threads
  pub size : length s.threads ≡ threads

pub record Inv (threads : ℕ) (s : State Memory Pc) : Type 0 where
  pub counts : Counts threads s
  pub water :
      0 < total filled s.threads → total unwritten s.threads ≡ 0 → s.shared.water ≡ s.shared.fuel

changes :
    (ls : List Pc) (i : ℕ) (l l' : Pc)
    → get_elem? ls i ≡ some l
    → (total holds_fuel (set ls i l') + holds_fuel l ≡ total holds_fuel ls + holds_fuel l')
      × (total holds_water (set ls i l') + holds_water l ≡ total holds_water ls + holds_water l')
      × (total filled (set ls i l') + filled l ≡ total filled ls + filled l')
      × (total unwritten (set ls i l') + unwritten l ≡ total unwritten ls + unwritten l')
      × (length (set ls i l') ≡ length ls)
changes ls i l l' e = (
  total-set holds_fuel ls i l l' e,
  total-set holds_water ls i l l' e,
  total-set filled ls i l l' e,
  total-set unwritten ls i l l' e,
  length-set ls i l',
)

pub Move-Inv :
    (n : ℕ) (m : Memory) (ls : List Pc) (i : ℕ) (l : Pc) (m' : Memory) (l' : Pc)
    → get_elem? ls i ≡ some l
    → Move m l m' l'
    → Inv n (record { shared = m; threads = ls })
    → Inv n (record { shared = m'; threads = set ls i l' })
Move-Inv n m ls i _ _ _ e (even_fuel h) inv =
    let free : bit m.fuel_locked ≡ 0 = ap bit h in
    let c = changes ls i _ has_fuel e in
    record {
      counts = omega (arith, inv.counts, c);
      water = λ some all. omega (arith, inv.water (omega (arith, some, c)) (omega (arith, all, c)));
    }
Move-Inv n m ls i _ _ _ e (even_water h) inv =
    let free : bit m.water_locked ≡ 0 = ap bit h in
    let c = changes ls i _ has_both e in
    record {
      counts = omega (arith, inv.counts, c);
      water = λ some all. omega (arith, inv.water (omega (arith, some, c)) (omega (arith, all, c)));
    }
Move-Inv n m ls i _ _ _ e (odd_water h) inv =
    let free : bit m.water_locked ≡ 0 = ap bit h in
    let c = changes ls i _ has_water e in
    record {
      counts = omega (arith, inv.counts, c);
      water = λ some all. omega (arith, inv.water (omega (arith, some, c)) (omega (arith, all, c)));
    }
Move-Inv n m ls i _ _ _ e (odd_fuel h) inv =
    let free : bit m.fuel_locked ≡ 0 = ap bit h in
    let c = changes ls i _ has_both e in
    record {
      counts = omega (arith, inv.counts, c);
      water = λ some all. omega (arith, inv.water (omega (arith, some, c)) (omega (arith, all, c)));
    }
Move-Inv n m ls i _ _ _ e add_fuel inv =
    let c = changes ls i _ fuelled e in
    record {
      counts = omega (arith, inv.counts, c);
      water = λ some all. absurd (omega (arith, all, c));
    }
Move-Inv n m ls i _ _ _ e set_water inv =
    let c = changes ls i _ watered e in
    record { counts = omega (arith, inv.counts, c); water = λ some all. refl }
Move-Inv n m ls i _ _ _ e unlock_fuel inv =
    let c = changes ls i _ half e in
    record {
      counts = omega (arith, inv.counts, c, bit-le m.fuel_locked);
      water = λ some all. omega (arith, inv.water (omega (arith, some, c)) (omega (arith, all, c)));
    }
Move-Inv n m ls i _ _ _ e unlock_water inv =
    let c = changes ls i _ ended e in
    record {
      counts = omega (arith, inv.counts, c, bit-le m.water_locked);
      water = λ some all. omega (arith, inv.water (omega (arith, some, c)) (omega (arith, all, c)));
    }

pub Reach-Inv :
    (threads : ℕ) {k : ℕ} {s : State Memory Pc} → Reach Move (started threads) k s → Inv threads s
Reach-Inv threads =
    Reach-invariant (λ _ s. Inv threads s) (λ _. Move-Inv threads)
      (record {
        counts = omega (
          arith,
          total-replicate holds_fuel threads start,
          total-replicate holds_water threads start,
          total-replicate filled threads start,
          length-replicate threads start,
        );
        water = λ some all. absurd (omega (arith, total-replicate filled threads start));
      })
