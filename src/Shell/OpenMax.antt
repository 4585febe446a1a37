-- ===== src/Shell/OpenMax.antt =====
-- src/shell/open_max.c: the limit of open files, that `popen` asks for once. `OPEN_MAX` is taken to
-- be undefined, as on Linux.
use sysprog_solutions.Common.{
  inl, inr, ◌⊎◌, ℕ, zero, suc, ◌≡◌, ◌<◌, ◌==◌, if◌then◌else◌, Cmd, ok, err, Ensures, returns, stops,
  ◌>>=◌, pure, arith, refl, false,
}

-- What `sysconf` gives: a number, -1 with `errno` as it was, or -1 with an error.
pub data Limit : Type 0 where
  limited : ℕ → Limit
  indeterminate failed : Limit

-- `exit(1)`, with the message or without.
pub data Exit : Type 0 where
  silent_exit message_exit : Exit

-- Where the limit is asked for. The guess of 256 is stored before the exit, and lost with it.
abbrev asked : Limit → Cmd Exit ℕ ℕ
asked (limited n) openmax = ok (n, n)
asked indeterminate openmax = err silent_exit
asked failed openmax = err message_exit

-- The state is the static variable `openmax`.
pub open_max : Limit → Cmd Exit ℕ ℕ
open_max limit openmax = if openmax == 0 then asked limit openmax else ok (openmax, openmax)

-- `sysconf` gives no limit of 0.
abbrev pub Positive : Limit → Type 0
Positive (limited n) = 0 < n
Positive _ = Unit

-- The system says no limit, and this is the exit.
abbrev pub Unlimited : Limit → Exit → Type 0
Unlimited (limited n) e = ⊥
Unlimited indeterminate e = e ≡ silent_exit
Unlimited failed e = e ≡ message_exit

abbrev pub twice : Limit → Limit → Cmd Exit ℕ (ℕ × ℕ)
twice limit later = do a ← open_max limit; b ← open_max later; pure (a, b)

-- Both calls give the number that is stored then: that of an earlier call, or else that of `sysconf`.
abbrev pub Agree : Limit → ℕ → ℕ × ℕ → ℕ → Type 0
Agree limit before p after =
    (p.0 ≡ after)
    × (p.1 ≡ after)
    × (((0 < before) × (after ≡ before)) ⊎ ((before ≡ 0) × (limit ≡ limited after)))

known_twice : (limit later : Limit) (n : ℕ) → 0 < n → twice limit later n ≡ ok ((n, n), n)
unfolding open_max
known_twice limit later n h =
    let some_limit : (n == 0) ≡ false = ground arith in rw (some_limit, some_limit) refl

-- Two calls of `open_max` in a row give the same number, whatever `sysconf` would say at the second:
-- the number of an earlier call where there is one, and else that of `sysconf`. The process exits
-- where there is no such number: with a message where `sysconf` fails, and without one where the limit
-- is indeterminate, so that the guess is never returned. `sysconf` is taken to give no limit of 0.
pub open_max-open_max :
    (limit later : Limit) (openmax : ℕ)
    → Positive limit
    → Ensures
        (Agree limit openmax)
        (λ e. (openmax ≡ 0) × Unlimited limit e)
        (twice limit later openmax)
unfolding open_max
open_max-open_max limit later (suc n) h =
    rw (known_twice limit later (suc n) (omega arith))
      (returns (refl, refl, inl (omega arith, refl)))
open_max-open_max (limited n) later zero h =
    let some_limit : (n == 0) ≡ false = ground arith in
    rw some_limit (returns (refl, refl, inr (refl, refl)))
open_max-open_max indeterminate later zero h = stops (refl, refl)
open_max-open_max failed later zero h = stops (refl, refl)
