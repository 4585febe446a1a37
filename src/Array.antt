-- ===== src/Array.antt =====
-- The growing array of src/array/array.c. `size_t` wraps around at 2 ^ 64, and a cell that was never
-- written is `none`.
pub mod Growth
pub mod Tests
use sysprog_solutions.Common.{
  ℕ, List, ◌%◌, Outcome, Option, none, ◌*◌, err, if◌then◌else◌, ◌+◌, ◌^◌, ltb, ◌-◌, ok, some,
  length, replicate, leb, ◌/◌, set, ◌&&◌, take, ◌++◌, drop,
}

-- Undefined behaviour, or a failed `assert`.
pub data Trap : Type 0 where
  fault abort : Trap

abbrev pub Cells : Type 0
Cells = List (Option ℕ)

-- `buf` is `none` where the pointer is NULL.
pub record ArrayInt : Type 0 where
  pub buf : Option Cells
  pub capacity : ℕ
  pub size : ℕ

abbrev pub sizeof_int : ℕ
sizeof_int = 4

-- `malloc(size * sizeof(int))`: NULL above PTRDIFF_MAX bytes, and taken to succeed below.
pub malloc_ints : ℕ → Option Cells
malloc_ints size =
    let bytes = size * sizeof_int % 2 ^ 64 in
    if ltb bytes (2 ^ 63) then some (replicate (bytes / sizeof_int) none) else none

abbrev pub init_from : Option Cells → ℕ → Outcome Trap ArrayInt
init_from none size = err abort
init_from (some cells) size = ok (record { buf = some cells; capacity = size; size = 0 })

pub array_init : ℕ → Outcome Trap ArrayInt
array_init size = init_from (malloc_ints size) size

-- `memcpy(new_buf, arr->buf, n * sizeof(int))`
abbrev pub copy_ints : Option Cells → Option Cells → ℕ → Option Cells
copy_ints (some new) (some old) n =
    if leb n (length new) && leb n (length old) then some (take n old ++ drop n new) else none
copy_ints _ _ n = none

abbrev pub resized : ArrayInt → ℕ → Option Cells → Outcome Trap ArrayInt
resized arr new_cap none = err fault
resized arr new_cap (some cells) = ok (record arr { buf = some cells; capacity = new_cap })

-- A `size_t` becomes an `int` and a `size_t` again.
abbrev pub through_int : ℕ → ℕ
through_int n = let low = n % 2 ^ 32 in if ltb low (2 ^ 31) then low else low + (2 ^ 64 - 2 ^ 32)

pub array_resize : ArrayInt → Outcome Trap ArrayInt
array_resize arr =
    let new_cap = through_int (arr.capacity * 2 % 2 ^ 64) in
    resized arr new_cap (copy_ints (malloc_ints new_cap) arr.buf arr.capacity)

abbrev pub put : ArrayInt → ℕ → Option Cells → Outcome Trap ArrayInt
put arr number none = err fault
put arr number (some cells) =
    if ltb arr.size (length cells)
    then ok (record arr {
      buf = some (set cells arr.size (some number));
      size = (arr.size + 1) % 2 ^ 64;
    })
    else err fault

abbrev pub put_in : Outcome Trap ArrayInt → ℕ → Outcome Trap ArrayInt
put_in (err e) number = err e
put_in (ok arr) number = put arr number arr.buf

pub array_add : ArrayInt → ℕ → Outcome Trap ArrayInt
array_add arr number =
    put_in (if ltb arr.capacity ((arr.size + 1) % 2 ^ 64) then array_resize arr else ok arr) number

pub array_free : ArrayInt → ArrayInt
array_free arr = record { buf = none; capacity = 0; size = 0 }

-- `fun` is the caller's; it gets the array with a first and a last position.
pub array_sort : (Option Cells → ℕ → ℕ → Option Cells) → ArrayInt → ArrayInt
array_sort fun arr = record arr { buf = fun arr.buf 0 ((arr.size + (2 ^ 64 - 1)) % 2 ^ 64) }
