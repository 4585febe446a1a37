-- ===== src/ThreadYt/Primes.antt =====
-- src/thread_yt/thread_mutex.c: two threads that each sum half of an array. Each works on an `int`
-- of its own that `main` reads behind the join, so that no interleaving matters.
use sysprog_solutions.Common.{
  ℕ, zero, suc, List, [], ◌∷◌, Option, some, none, ◌≡◌, ◌+◌, ◌^◌, ltb, if◌then◌else◌, get_elem?,
  total, length, ◌<◌, ◌≤◌, take, drop, arith, ap, get_elem?-lt, true, ◌∙◌, sym, take-length,
  take-add, total-append,
}

-- `sum += x` on an `int`, of numbers that are not negative; `none` is overflow.
abbrev add_int : ℕ → ℕ → Option ℕ
add_int sum x = if ltb (sum + x) (2 ^ 31) then some (sum + x) else none

abbrev add_element : Option ℕ → ℕ → Option ℕ
add_element none sum = none
add_element (some x) sum = add_int sum x

abbrev and_sum : Option ℕ → (ℕ → Option ℕ) → Option ℕ
and_sum none k = none
and_sum (some sum) k = k sum

-- The loop of `routine` over `rounds` elements from `index` on.
sum_from : ℕ → ℕ → List ℕ → ℕ → Option ℕ
sum_from zero index primes sum = some sum
sum_from (suc rounds) index primes sum =
    and_sum (add_element (get_elem? primes index) sum) (sum_from rounds (suc index) primes)

-- What `routine` leaves in its argument.
pub routine : List ℕ → ℕ → Option ℕ
unfolding sum_from
routine primes index = sum_from 5 index primes 0

-- The number that `main` prints.
unfoldable pub main : List ℕ → Option ℕ
unfolding routine
main primes = and_sum (routine primes 0) (λ first.
    and_sum (routine primes 5) (λ second. and_sum (add_int 0 first) (λ sum. add_int sum second)))

abbrev pub primes : List ℕ
primes = 2 ∷ 3 ∷ 5 ∷ 7 ∷ 11 ∷ 13 ∷ 17 ∷ 19 ∷ 23 ∷ 29 ∷ []

-- The sum of a list.
abbrev pub sum_of : List ℕ → ℕ
sum_of = total (λ x. x)

sum-take-drop :
    (xs : List ℕ) (i n x : ℕ)
    → get_elem? xs i ≡ some x
    → sum_of (take (suc n) (drop i xs)) ≡ x + sum_of (take n (drop (suc i) xs))
unfolding total
sum-take-drop [] i n x e = cc
sum-take-drop (y ∷ xs) zero n x e = let same : y ≡ x = cc in omega arith
sum-take-drop (y ∷ xs) (suc i) n x e = sum-take-drop xs i n x e

sum_from-sum :
    (n i : ℕ) (xs : List ℕ) (sum : ℕ)
    → i + n ≤ length xs
    → sum + sum_of (take n (drop i xs)) < 2 ^ 31
    → sum_from n i xs sum ≡ some (sum + sum_of (take n (drop i xs)))
unfolding sum_from total
sum_from-sum zero i xs sum h small = ap some (omega arith)
sum_from-sum (suc n) i xs sum h small =
    let (x, e) = get_elem?-lt xs i (omega arith) in
    let split = sum-take-drop xs i n x e in
    let fits : ltb (sum + x) (2 ^ 31) ≡ true = ground (arith, split) in
    rw (e, fits)
      (sum_from-sum n (suc i) xs (sum + x) (omega arith) (omega (arith, split))
        ∙ ap some (omega (arith, split)))

-- Of any ten numbers with a sum below 2^31, the program prints the sum: the two threads together
-- read each element of the array once, none out of bounds, and nothing overflows.
pub main-sum_of : (xs : List ℕ) → length xs ≡ 10 → sum_of xs < 2 ^ 31 → main xs ≡ some (sum_of xs)
unfolding main routine
main-sum_of xs ten small =
    let halves : sum_of xs ≡ sum_of (take 5 xs) + sum_of (take 5 (drop 5 xs)) =
      let ten' : take (5 + 5) xs ≡ xs = ap (λ n. take n xs) (sym ten) ∙ take-length xs in
      ap sum_of (sym ten' ∙ take-add 5 5 xs)
      ∙ total-append (λ x. x) (take 5 xs) (take 5 (drop 5 xs)) in
    let first = sum_from-sum 5 0 xs 0 (omega arith) (omega (arith, halves)) in
    let second = sum_from-sum 5 5 xs 0 (omega arith) (omega (arith, halves)) in
    let fits : ltb (0 + (0 + sum_of (take 5 xs))) (2 ^ 31) ≡ true = ground (arith, halves) in
    let fits' : ltb (0 + (0 + sum_of (take 5 xs)) + (0 + sum_of (take 5 (drop 5 xs)))) (2 ^ 31)
        ≡ true =
      ground (arith, halves) in
    rw (first, second, fits, fits') (ap some (omega (arith, halves)))
