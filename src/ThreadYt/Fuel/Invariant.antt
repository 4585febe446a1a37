-- ===== src/ThreadYt/Fuel/Invariant.antt =====
-- How the fuel, the broadcasts and the places of the threads add up.
use sysprog_solutions.ThreadYt.Fuel.{
  Memory, Pc, Move, AnyMove, program, spurious, started, fill, filling, filled, broadcasting,
  arriving, checking, sleeping, woken, fuelled, gone, lock_fill, fill_up, unlock_fill, broadcast,
  lock_car, cond_wait, wake, lock_again, take_fuel, unlock_car, State,
}
use sysprog_solutions.Common.{
  ℕ, suc, some, ◌≤◌, List, ◌<◌, get_elem?, arith, ◌-◌, ◌≡◌, ◌+◌, ◌*◌, set, ap, total_mono,
  total-group, total, total-set,
}
use sysprog_solutions.ThreadYt.System.{State, Reach, Reach-invariant, bit, bit-le}

-- The fillings, and the broadcasts, that are still to come.
abbrev pub to_fill : Pc → ℕ
to_fill (fill r) = r
to_fill (filling r) = suc r
to_fill (filled r) = r
to_fill (broadcasting r) = r
to_fill _ = 0

abbrev pub to_broadcast : Pc → ℕ
to_broadcast (fill r) = r
to_broadcast (filling r) = suc r
to_broadcast (filled r) = suc r
to_broadcast (broadcasting r) = suc r
to_broadcast _ = 0

-- Cars that have their fuel, and those that do not.
abbrev pub served : Pc → ℕ
served fuelled = 1
served gone = 1
served _ = 0

abbrev pub unserved : Pc → ℕ
unserved arriving = 1
unserved checking = 1
unserved (sleeping t) = 1
unserved woken = 1
unserved _ = 0

abbrev pub in_section : Pc → ℕ
in_section (filling r) = 1
in_section (filled r) = 1
in_section checking = 1
in_section fuelled = 1
in_section _ = 0

-- Cars that no broadcast will wake.
abbrev pub too_late : Pc → ℕ
too_late (sleeping t) = suc t - 5
too_late _ = 0

pub record Inv (n : ℕ) (s : State Memory Pc) : Type 0 where
  pub fuel : s.shared.fuel + 40 * total served s.threads + 60 * total to_fill s.threads ≡ 300
  pub broadcasts : s.shared.broadcasts + total to_broadcast s.threads ≡ 5
  pub mutex : total in_section s.threads ≡ bit s.shared.locked
  pub cars : total served s.threads + total unserved s.threads ≡ n
  pub in_time : total too_late s.threads ≡ 0

changes :
    (ls : List Pc) (i : ℕ) (l l' : Pc)
    → get_elem? ls i ≡ some l
    → (total to_fill (set ls i l') + to_fill l ≡ total to_fill ls + to_fill l')
      × (total to_broadcast (set ls i l') + to_broadcast l
          ≡ total to_broadcast ls + to_broadcast l')
      × (total served (set ls i l') + served l ≡ total served ls + served l')
      × (total unserved (set ls i l') + unserved l ≡ total unserved ls + unserved l')
      × (total in_section (set ls i l') + in_section l ≡ total in_section ls + in_section l')
      × (total too_late (set ls i l') + too_late l ≡ total too_late ls + too_late l')
changes ls i l l' e = (
  total-set to_fill ls i l l' e,
  total-set to_broadcast ls i l l' e,
  total-set served ls i l l' e,
  total-set unserved ls i l l' e,
  total-set in_section ls i l l' e,
  total-set too_late ls i l l' e,
)

pub filling_first : (l : Pc) → to_fill l ≤ to_broadcast l
filling_first (fill r) = omega arith
filling_first (filling r) = omega arith
filling_first (filled r) = omega arith
filling_first (broadcasting r) = omega arith
filling_first arriving = omega arith
filling_first checking = omega arith
filling_first (sleeping t) = omega arith
filling_first woken = omega arith
filling_first fuelled = omega arith
filling_first gone = omega arith

too_early :
    (m : Memory) (ls : List Pc) (cars : ℕ)
    → cars ≤ 6
    → m.fuel < 40
    → Inv cars (record { shared = m; threads = ls })
    → m.broadcasts < 5
too_early m ls cars few h inv =
    let first = total_mono to_fill to_broadcast filling_first ls in
    omega (arith, few, h, inv, first)

module _ (cars : ℕ) (few : cars ≤ 6) where
  Move-Inv :
      (m : Memory) (ls : List Pc) (i : ℕ) (l : Pc) (m' : Memory) (l' : Pc)
      → get_elem? ls i ≡ some l
      → Move m l m' l'
      → Inv cars (record { shared = m; threads = ls })
      → Inv cars (record { shared = m'; threads = set ls i l' })
  Move-Inv m ls i _ _ _ e (lock_fill {r} h) inv =
      let free : bit m.locked ≡ 0 = ap bit h in omega (arith, inv, changes ls i _ (filling r) e)
  Move-Inv m ls i _ _ _ e (fill_up {r}) inv = omega (arith, inv, changes ls i _ (filled r) e)
  Move-Inv m ls i _ _ _ e (unlock_fill {r}) inv =
      omega (arith, inv, changes ls i _ (broadcasting r) e, bit-le m.locked)
  Move-Inv m ls i _ _ _ e (broadcast {r}) inv = omega (arith, inv, changes ls i _ (fill r) e)
  Move-Inv m ls i _ _ _ e (lock_car h) inv =
      let free : bit m.locked ≡ 0 = ap bit h in omega (arith, inv, changes ls i _ checking e)
  Move-Inv m ls i _ _ _ e (cond_wait h) inv =
      let early = too_early m ls cars few h inv in
      omega (arith, inv, changes ls i _ (sleeping m.broadcasts) e, bit-le m.locked, early)
  Move-Inv m ls i _ _ _ e (wake h) inv = omega (arith, inv, changes ls i _ woken e)
  Move-Inv m ls i _ _ _ e (lock_again h) inv =
      let free : bit m.locked ≡ 0 = ap bit h in omega (arith, inv, changes ls i _ checking e)
  Move-Inv m ls i _ _ _ e (take_fuel h) inv = omega (arith, inv, changes ls i _ fuelled e)
  Move-Inv m ls i _ _ _ e unlock_car inv =
      omega (arith, inv, changes ls i _ gone e, bit-le m.locked)

  AnyMove-Inv :
      (m : Memory) (ls : List Pc) (i : ℕ) (l : Pc) (m' : Memory) (l' : Pc)
      → get_elem? ls i ≡ some l
      → AnyMove m l m' l'
      → Inv cars (record { shared = m; threads = ls })
      → Inv cars (record { shared = m'; threads = set ls i l' })
  AnyMove-Inv m ls i l m' l' e (program mv) inv = Move-Inv m ls i l m' l' e mv inv
  AnyMove-Inv m ls i _ _ _ e spurious inv = omega (arith, inv, changes ls i _ woken e)

  started-Inv : Inv cars (started cars)
  started-Inv = omega (
    arith,
    total-group to_fill cars arriving (fill 5),
    total-group to_broadcast cars arriving (fill 5),
    total-group served cars arriving (fill 5),
    total-group unserved cars arriving (fill 5),
    total-group in_section cars arriving (fill 5),
    total-group too_late cars arriving (fill 5),
  )

  pub Reach-Inv : {k : ℕ} {s : State Memory Pc} → Reach AnyMove (started cars) k s → Inv cars s
  Reach-Inv = Reach-invariant (λ _ s. Inv cars s) (λ _. AnyMove-Inv) started-Inv
