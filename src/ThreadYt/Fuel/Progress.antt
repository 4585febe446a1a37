-- ===== src/ThreadYt/Fuel/Progress.antt =====
-- The threads of `thread_cv.c` go on until each has ended.
use sysprog_solutions.Common.{
  ℕ, zero, suc, some, false, inl, inr, ◌≤◌, get_elem?, ◌≡◌, ◌+◌, ◌<◌, ◌*◌, arith, ◌⊎◌, total,
  total-pos, le-total, total_mono, total-add,
}
use sysprog_solutions.ThreadYt.Fuel.{
  Memory, Pc, Move, AnyMove, started, fill, filling, filled, broadcasting, arriving, checking,
  sleeping, woken, fuelled, gone, lock_fill, fill_up, unlock_fill, broadcast, lock_car, cond_wait,
  wake, lock_again, take_fuel, unlock_car, State,
}
use sysprog_solutions.ThreadYt.System.{State, Reach, Step, pick, bit_zero}
use sysprog_solutions.ThreadYt.Fuel.Invariant.{
  too_late, in_section, to_broadcast, unserved, Reach-Inv, to_fill, filling_first,
}
use native.Mathlib.Decide.{dec_lt}

-- Threads that have not returned.
abbrev pub unended : Pc → ℕ
unended (fill zero) = 0
unended gone = 0
unended _ = 1

unended-le : (l : Pc) → unended l ≤ in_section l + to_broadcast l + unserved l
unended-le (fill zero) = omega arith
unended-le (fill (suc r)) = omega arith
unended-le (filling r) = omega arith
unended-le (filled r) = omega arith
unended-le (broadcasting r) = omega arith
unended-le arriving = omega arith
unended-le checking = omega arith
unended-le (sleeping t) = omega arith
unended-le woken = omega arith
unended-le fuelled = omega arith
unended-le gone = omega arith

module _ (s : State Memory Pc) (i : ℕ) where
  section_move :
      (l : Pc)
      → get_elem? s.threads i ≡ some l
      → 0 < in_section l
      → (t : State Memory Pc) × Step Move s t
  section_move (fill r) e h = absurd (omega arith)
  section_move (filling r) e h = (_, pick i e fill_up)
  section_move (filled r) e h = (_, pick i e unlock_fill)
  section_move (broadcasting r) e h = absurd (omega arith)
  section_move arriving e h = absurd (omega arith)
  section_move checking e h = elim (dec_lt s.shared.fuel 40) [
    | yes low ↦ (_, pick i e (cond_wait low))
    | no enough ↦ (_, pick i e (take_fuel (omega arith)))
  ]
  section_move (sleeping t) e h = absurd (omega arith)
  section_move woken e h = absurd (omega arith)
  section_move fuelled e h = (_, pick i e unlock_car)
  section_move gone e h = absurd (omega arith)

  filler_move :
      (l : Pc)
      → get_elem? s.threads i ≡ some l
      → s.shared.locked ≡ false
      → 0 < to_broadcast l
      → (t : State Memory Pc) × Step Move s t
  filler_move (fill zero) e f h = absurd (omega arith)
  filler_move (fill (suc r)) e f h = (_, pick i e (lock_fill f))
  filler_move (filling r) e f h = (_, pick i e fill_up)
  filler_move (filled r) e f h = (_, pick i e unlock_fill)
  filler_move (broadcasting r) e f h = (_, pick i e broadcast)
  filler_move arriving e f h = absurd (omega arith)
  filler_move checking e f h = absurd (omega arith)
  filler_move (sleeping t) e f h = absurd (omega arith)
  filler_move woken e f h = absurd (omega arith)
  filler_move fuelled e f h = absurd (omega arith)
  filler_move gone e f h = absurd (omega arith)

  -- Behind the fifth broadcast every car that sleeps can wake.
  car_move :
      (l : Pc)
      → get_elem? s.threads i ≡ some l
      → s.shared.locked ≡ false
      → s.shared.broadcasts ≡ 5
      → too_late l ≡ 0
      → 0 < unserved l
      → (t : State Memory Pc) × Step Move s t
  car_move (fill r) e f b w h = absurd (omega arith)
  car_move (filling r) e f b w h = absurd (omega arith)
  car_move (filled r) e f b w h = absurd (omega arith)
  car_move (broadcasting r) e f b w h = absurd (omega arith)
  car_move arriving e f b w h = (_, pick i e (lock_car f))
  car_move checking e f b w h = section_move checking e (omega arith)
  car_move (sleeping t) e f b w h = (_, pick i e (wake (omega arith)))
  car_move woken e f b w h = (_, pick i e (lock_again f))
  car_move fuelled e f b w h = absurd (omega arith)
  car_move gone e f b w h = absurd (omega arith)

-- With six cars or fewer there is no deadlock: in every reachable state, also behind wake-ups that
-- no broadcast made, some thread can make a move of the program, or all threads have ended, and then
-- the five fillings less 40 for each car are left.
pub Reach-ended_or_moves :
    (cars : ℕ) {k : ℕ} {s : State Memory Pc}
    → cars ≤ 6
    → Reach AnyMove (started cars) k s
    → ((total unended s.threads ≡ 0) × (s.shared.fuel + 40 * cars ≡ 300))
      ⊎ ((t : State Memory Pc) × Step Move s t)
Reach-ended_or_moves cars {s = s} few r =
    let inv = Reach-Inv cars few r in
    let ls = s.threads in
    elim (dec_lt 0 (total in_section ls)) [
      | yes held ↦
          let (i, l, e, here) = total-pos in_section ls held in inr (section_move s i l e here)
      | no unheld ↦
          let free : s.shared.locked ≡ false =
            bit_zero s.shared.locked (omega (arith, inv.mutex)) in
          elim (dec_lt 0 (total to_broadcast ls)) [
            | yes more ↦
                let (i, l, e, here) = total-pos to_broadcast ls more in
                inr (filler_move s i l e free here)
            | no over ↦ elim (dec_lt 0 (total unserved ls)) [
              | yes cars_left ↦
                  let (i, l, e, here) = total-pos unserved ls cars_left in
                  inr (
                    car_move s i l e free (omega (arith, inv.broadcasts))
                      (omega (arith, inv.in_time, le-total too_late ls i e)) here)
              | no all_served ↦ inl (
                omega (
                  arith,
                  total_mono unended (λ l. in_section l + to_broadcast l + unserved l) unended-le
                      ls,
                  total-add (λ l. in_section l + to_broadcast l) unserved ls,
                  total-add in_section to_broadcast ls,
                ),
                omega (arith, inv, total_mono to_fill to_broadcast filling_first ls),
              )
            ]
          ]
    ]
