-- ===== src/Array/Tests.antt =====
-- Runs of the array, and the theorems of Array at concrete arrays.
use sysprog_solutions.Common.{some, ◌≡◌, ◌∷◌, refl, none, ok, [], arith}
use sysprog_solutions.Array.{
  array_sort, ArrayInt, array_add, array_free, Cells, array_resize, some, array_init, none, ok,
  malloc_ints,
}
use sysprog_solutions.Array.Growth.{add_all, Holds, array_init-add_all}

abbrev full : ArrayInt
full = record { buf = some (some 5 ∷ []); capacity = 1; size = 1 }

abbrev full_cells : Cells
full_cells = some 5 ∷ []

full-Holds : Holds full (5 ∷ [])
full-Holds = record {
  cells = full_cells;
  stored = refl;
  room = refl;
  counted = refl;
  fits = omega arith;
  holds = refl;
}

add_run :
    array_add full 6 ≡ ok (record { buf = some (some 5 ∷ some 6 ∷ []); capacity = 2; size = 2 })
unfolding array_add array_resize malloc_ints
add_run = refl

free_run : array_free full ≡ record { buf = none; capacity = 0; size = 0 }
unfolding array_free
free_run = refl

sort_run : (array_sort (λ cells low high. cells) full).size ≡ 1
unfolding array_sort
sort_run = refl

array_init-add_all_example :
    (arr arr' : ArrayInt) × (array_init 1 ≡ ok arr)
    × (add_all (1 ∷ 2 ∷ 3 ∷ []) arr ≡ ok arr')
    × Holds arr' (1 ∷ 2 ∷ 3 ∷ [])
array_init-add_all_example =
    array_init-add_all 1 (1 ∷ 2 ∷ 3 ∷ []) (omega arith) (omega arith) (omega arith)

abbrev empty : ArrayInt
empty = record { buf = some []; capacity = 0; size = 0 }

empty-Holds : Holds empty []
empty-Holds = record {
  cells = [];
  stored = refl;
  room = refl;
  counted = refl;
  fits = omega arith;
  holds = refl;
}
