-- ===== src/Ufs/Blocks/Contents.antt =====
-- What the blocks of `allocate_block` hold.
use sysprog_solutions.Common.{
  ℕ, zero, suc, ◌+◌, ◌*◌, ◌%◌, ◌-◌, ◌≤◌, ◌<◌, ◌≡◌, refl, List, [], ◌∷◌, ◌++◌, ltb, leb, ◌==◌,
  if◌then◌else◌, take, drop, length, ok, arith, take-take_append, append-nil, length-drop,
  take-take, take-add, false, true,
}
use sysprog_solutions.Ufs.State.{Block, block_size}
use sysprog_solutions.Ufs.Blocks.{
  last_part, fill_blocks, extra_blocks, allocate_block, total_occupied,
}

-- The bytes that the blocks occupy, in order.
pub contents : List Block → List ℕ
contents [] = []
contents (b ∷ bs) = take b.occupied b.memory ++ contents bs

-- The bytes of a write of `size` that are kept: at a multiple of the block size, the last block
-- is filled with none.
unfoldable pub kept : ℕ → ℕ
kept size = if (size % block_size) == 0 then size - block_size else size

-- The size of the first block.
abbrev pub first_occupied : List Block → ℕ
first_occupied [] = 0
first_occupied (b ∷ bs) = b.occupied

pub record Filled (n : ℕ) (ptr : List ℕ) (blocks : List Block) : Type 0 where
  pub holds : contents blocks ≡ take n ptr
  pub occupies : total_occupied blocks ≡ n
  pub first : first_occupied blocks ≤ 8

fill_blocks-Filled :
    (n remained : ℕ) (ptr : List ℕ)
    → 8 * n + remained ≤ length ptr
    → remained < 8
    → Filled (8 * n + remained) ptr (fill_blocks n remained ptr).0
      × ((fill_blocks n remained ptr).1 ≡ 8 * n + remained)
unfolding fill_blocks contents total_occupied
fill_blocks-Filled zero remained ptr h lt =
    let e : 8 * 0 + remained ≡ remained = omega arith in
    rw e (
      record {
        holds = rw (take-take_append remained ptr _ (omega arith)) (append-nil _);
        occupies = omega arith;
        first = omega arith;
      },
      refl,
    )
fill_blocks-Filled (suc n) remained ptr h lt =
    let m = 8 * n + remained in
    let e : 8 * suc n + remained ≡ 8 + m = omega arith in
    let short = length-drop 8 ptr in
    let (rest, written) = fill_blocks-Filled n remained (drop 8 ptr) (omega arith) lt in
    rw e (
      record {
        holds = rw (take-take 8 ptr, take-add 8 m ptr, rest.holds);
        occupies = omega (arith, rest.occupies);
        first = omega arith;
      },
      omega arith,
    )

whole-kept : (size : ℕ) → 0 < size → 8 * extra_blocks size + size % 8 ≡ kept size
unfolding extra_blocks kept
whole-kept size h = ground arith

pub kept-le : (size : ℕ) → kept size ≤ size
unfolding kept
kept-le size = ground arith

-- `allocate_block` for at least one byte of the data, and at most all of them, succeeds and
-- returns `kept size`. So many bytes from the start of the data are in the blocks, and the first
-- block has eight of them at most.
pub allocate_block-kept :
    (buf : List ℕ) (size : ℕ)
    → 0 < size
    → size ≤ length buf
    → (blocks : List Block) × (allocate_block buf size ≡ ok (blocks, kept size))
      × Filled (kept size) buf blocks
unfolding allocate_block
allocate_block-kept buf size h l =
    let n = extra_blocks size in
    let whole = whole-kept size h in
    let below = kept-le size in
    let (filled, written) = fill_blocks-Filled n (size % 8) buf (omega arith) (omega arith) in
    let nonzero : (size == 0) ≡ false = ground arith in
    let fits : leb (kept size) (length buf) ≡ true = ground arith in
    ((fill_blocks n (size % 8) buf).0, rw (nonzero, written, whole, fits), rw whole at filled)

-- Fewer than eight bytes make one block.
pub allocate_block_short :
    (buf : List ℕ) (size : ℕ)
    → 0 < size
    → size < 8
    → size ≤ length buf
    → allocate_block buf size ≡ ok (last_part size buf ∷ [], size)
unfolding allocate_block fill_blocks extra_blocks
allocate_block_short buf size h lt l =
    let one : ltb 8 size ≡ false = ground arith in
    let rem : size % 8 ≡ size = omega arith in
    let nonzero : (size == 0) ≡ false = ground arith in
    let fits : leb size (length buf) ≡ true = ground arith in rw (one, nonzero, rem, fits)
