-- ===== src/Array/Growth.antt =====
-- `array_add` on an array that has room for one number at least.
use sysprog_solutions.Common.{
  ℕ, List, ◌≡◌, ◌<◌, map, length, some, ◌^◌, ◌≤◌, ◌++◌, take, ok, ◌+◌, ◌∷◌, [], set, ap, ltb, arith,
  suc, true, ◌%◌, zero, length-set, refl, ◌∙◌, length-append, sym, Option, ◌*◌, replicate, none,
  ◌/◌, append-nil, length-replicate, Outcome, leb, Bool-cases, append_assoc, err, inl, drop, inr,
  length-take, length-drop, take-copied, false,
}
use sysprog_solutions.Array.{
  Cells, ArrayInt, length, some, take, put, ok, set, ltb, array_resize, Option, through_int,
  malloc_ints, replicate, none, Outcome, array_init, array_add, leb, err, Trap, fault, drop,
}

-- The array holds the numbers `xs`: they fill the first cells, and there are `capacity` cells.
pub record Holds (arr : ArrayInt) (xs : List ℕ) : Type 0 where
  pub cells : Cells
  pub stored : arr.buf ≡ some cells
  pub room : length cells ≡ arr.capacity
  pub counted : length xs ≡ arr.size
  pub fits : arr.size ≤ arr.capacity
  pub holds : take arr.size cells ≡ map some xs

take-set_end :
    (cells : Cells) (n : ℕ) (x : ℕ)
    → n < length cells
    → take (n + 1) (set cells n (some x)) ≡ take n cells ++ some x ∷ []
take-set_end [] n x h = absurd (omega arith)
take-set_end (c ∷ cells) zero x h = refl
take-set_end (c ∷ cells) (suc n) x h =
    let e : suc n + 1 ≡ suc (n + 1) = omega arith in
    rw e (ap (◌∷◌ c) (take-set_end cells n x (omega arith)))

map-append : (xs ys : List ℕ) → map {B = Option ℕ} some (xs ++ ys) ≡ map some xs ++ map some ys
map-append [] ys = refl
map-append (x ∷ xs) ys = ap (◌∷◌ (some x)) (map-append xs ys)

-- A number that finds a free cell.
put-Holds :
    (arr : ArrayInt) (xs : List ℕ) (x : ℕ)
    → Holds arr xs
    → arr.size < arr.capacity
    → arr.size < 2 ^ 30
    → (arr' : ArrayInt) × (put arr x arr.buf ≡ ok arr')
      × Holds arr' (xs ++ x ∷ [])
      × (arr'.capacity ≡ arr.capacity)
put-Holds arr xs x h free small =
    let inside : ltb arr.size (length h.cells) ≡ true = rw h.room (ground arith) in
    let e : (arr.size + 1) % 2 ^ 64 ≡ arr.size + 1 = omega arith in
    (
      record arr { buf = some (set h.cells arr.size (some x)); size = arr.size + 1 },
      rw (h.stored, inside, e) refl,
      record {
        cells = set h.cells arr.size (some x);
        stored = refl;
        room = length-set h.cells arr.size (some x) ∙ h.room;
        counted = omega (arith, length-append xs (x ∷ []), h.counted);
        fits = omega arith;
        holds =
            take-set_end h.cells arr.size x (omega (arith, h.room))
            ∙ ap (λ t. t ++ some x ∷ []) h.holds
            ∙ sym (map-append xs (x ∷ []));
      },
      refl,
    )

through_int_small : (n : ℕ) → n < 2 ^ 31 → through_int (n % 2 ^ 64) ≡ n
through_int_small n h = ground arith

malloc_ints_small : (n : ℕ) → n < 2 ^ 31 → malloc_ints n ≡ some (replicate n none)
unfolding malloc_ints
malloc_ints_small n h =
    let e : n * 4 % 2 ^ 64 ≡ n * 4 = omega arith in
    let q : n * 4 / 4 ≡ n = omega arith in
    let small : ltb (n * 4) (2 ^ 63) ≡ true = ground arith in rw (e, small, q) refl

-- A full array doubles.
array_resize-Holds :
    (arr : ArrayInt) (xs : List ℕ)
    → Holds arr xs
    → arr.capacity < 2 ^ 30
    → (arr' : ArrayInt) × (array_resize arr ≡ ok arr')
      × Holds arr' xs
      × (arr'.capacity ≡ arr.capacity * 2)
      × (arr'.size ≡ arr.size)
unfolding array_resize
array_resize-Holds arr xs h small =
    let c = arr.capacity in
    let new : Cells = replicate (c * 2) none in
    let wide : length new ≡ c * 2 = length-replicate (c * 2) none in
    let into : leb c (length new) ≡ true = rw wide (ground arith) in
    let from : leb c (length h.cells) ≡ true = rw h.room (ground arith) in
    let cells = take c h.cells ++ drop c new in
    (
      record arr { buf = some cells; capacity = c * 2 },
      rw
          (
            through_int_small (c * 2) (omega arith),
            malloc_ints_small (c * 2) (omega arith),
            h.stored,
            into,
            from,
          )
          refl,
      record {
        cells = cells;
        stored = refl;
        room = omega (
          arith,
          length-append (take c h.cells) (drop c new),
          length-take c h.cells (omega (arith, h.room)),
          length-drop c new,
          wide,
        );
        counted = h.counted;
        fits = omega (arith, h.fits);
        holds =
            take-copied arr.size c h.cells (drop c new) h.fits (omega (arith, h.room)) ∙ h.holds;
      },
      refl,
      refl,
    )

-- A number that finds no free cell of a full array.
full :
    (arr : ArrayInt) (xs : List ℕ)
    → Holds arr xs
    → ltb arr.capacity (arr.size + 1) ≡ true
    → arr.capacity ≡ arr.size
full arr xs h e = let fits = h.fits in ground arith

add_fitting :
    (arr : ArrayInt) (number : ℕ)
    → arr.size < 2 ^ 30
    → ltb arr.capacity (arr.size + 1) ≡ false
    → array_add arr number ≡ put arr number arr.buf
unfolding array_add
add_fitting arr number small fits =
    let no_wrap : (arr.size + 1) % 2 ^ 64 ≡ arr.size + 1 = omega arith in rw (no_wrap, fits) refl

add_growing :
    (arr grown : ArrayInt) (number : ℕ)
    → arr.size < 2 ^ 30
    → ltb arr.capacity (arr.size + 1) ≡ true
    → array_resize arr ≡ ok grown
    → array_add arr number ≡ put grown number grown.buf
unfolding array_add
add_growing arr grown number small more run =
    let no_wrap : (arr.size + 1) % 2 ^ 64 ≡ arr.size + 1 = omega arith in
    rw (no_wrap, more, run) refl

-- `array_add` on an array with room for one number at least, and fewer than 2^30 numbers in it,
-- succeeds: the array then holds the number behind those it held, and still has room for one.
pub array_add-Holds :
    (arr : ArrayInt) (xs : List ℕ) (number : ℕ)
    → Holds arr xs
    → 0 < arr.capacity
    → arr.size < 2 ^ 30
    → (arr' : ArrayInt) × (array_add arr number ≡ ok arr')
      × Holds arr' (xs ++ number ∷ [])
      × (0 < arr'.capacity)
array_add-Holds arr xs number h some_room small =
    elim (Bool-cases (ltb arr.capacity (arr.size + 1))) [
      | inl more ↦
          let e = full arr xs h more in
          let (grown, run, h', doubled, same) = array_resize-Holds arr xs h (omega arith) in
          let (arr', run', h'', capacity) =
            put-Holds grown xs number h' (omega arith) (omega arith) in
          (arr', add_growing arr grown number small more run ∙ run', h'', omega arith)
      | inr fits ↦
          let (arr', run', h'', capacity) = put-Holds arr xs number h (ground arith) small in
          (arr', add_fitting arr number small fits ∙ run', h'', omega arith)
    ]

-- `array_add` for each number of a list.
pub add_all : List ℕ → ArrayInt → Outcome Trap ArrayInt
add_all [] arr = ok arr
add_all (n ∷ ns) arr = elim (array_add arr n) [ ok arr' ↦ add_all ns arr' | err e ↦ err e ]

add_all_step :
    (n : ℕ) (ns : List ℕ) (arr arr1 : ArrayInt)
    → array_add arr n ≡ ok arr1
    → add_all (n ∷ ns) arr ≡ add_all ns arr1
unfolding add_all
add_all_step n ns arr arr1 e = rw (add_all, e) refl

add_all-Holds :
    (ns : List ℕ) (arr : ArrayInt) (xs : List ℕ)
    → Holds arr xs
    → 0 < arr.capacity
    → length xs + length ns ≤ 2 ^ 30
    → (arr' : ArrayInt) × (add_all ns arr ≡ ok arr') × Holds arr' (xs ++ ns)
unfolding add_all
add_all-Holds [] arr xs h some_room small = (arr, refl, rw (append-nil xs) h)
add_all-Holds (n ∷ ns) arr xs h some_room small =
    let counted = h.counted in
    let (arr1, run, h1, room1) = array_add-Holds arr xs n h some_room (omega arith) in
    let (arr', run', h') =
      add_all-Holds ns arr1 (xs ++ n ∷ []) h1 room1 (omega (arith, length-append xs (n ∷ []))) in
    (arr', add_all_step n ns arr arr1 run ∙ run', rw (append_assoc xs (n ∷ []) ns) at h')

-- An array made for 1 to 2^60 numbers takes any list of up to 2^30 numbers by `array_add`, and
-- then holds them in order.
pub array_init-add_all :
    (size : ℕ) (ns : List ℕ)
    → 0 < size
    → size ≤ 2 ^ 60
    → length ns ≤ 2 ^ 30
    → (arr arr' : ArrayInt) × (array_init size ≡ ok arr)
      × (add_all ns arr ≡ ok arr')
      × Holds arr' ns
unfolding array_init malloc_ints
array_init-add_all size ns pos small few =
    let e : size * 4 % 2 ^ 64 ≡ size * 4 = omega arith in
    let q : size * 4 / 4 ≡ size = omega arith in
    let fits : ltb (size * 4) (2 ^ 63) ≡ true = ground arith in
    let fresh : ArrayInt = record { buf = some (replicate size none); capacity = size; size = 0 } in
    let empty : Holds fresh [] = record {
      cells = replicate size none;
      stored = refl;
      room = length-replicate size none;
      counted = refl;
      fits = omega arith;
      holds = refl;
    } in
    let (arr', run, h) = add_all-Holds ns fresh [] empty pos (omega arith) in
    (fresh, arr', rw (e, q, fits) refl, run, h)

-- `array_add` on any array of capacity 0 writes out of bounds: doubling leaves no room.
pub array_add_empty :
    (arr : ArrayInt) (xs : List ℕ) (number : ℕ)
    → Holds arr xs
    → arr.capacity ≡ 0
    → array_add arr number ≡ err fault
unfolding malloc_ints array_add array_resize
array_add_empty arr xs number h no_room =
    let empty : arr.size ≡ 0 = omega (arith, h.fits) in
    let from : leb 0 (length h.cells) ≡ true = ground arith in
    rw (empty, no_room, h.stored, from) refl
