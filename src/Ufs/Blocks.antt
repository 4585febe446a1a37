-- ===== src/Ufs/Blocks.antt =====
-- The contents of a file: `allocate_block`, and the loops of `read_data` and `file_size`.
pub mod Contents
pub mod Reading
use sysprog_solutions.Common.{
  ℕ, zero, suc, ◌+◌, ◌/◌, ◌%◌, ◌-◌, List, [], ◌∷◌, ◌++◌, Option, none, some, ltb, leb, ◌==◌,
  if◌then◌else◌, take, drop, replicate, length, Outcome, ok, err,
}
use sysprog_solutions.Ufs.State.{Block, block_size, Trap, fault, abort}

abbrev zeroes : ℕ → List ℕ
zeroes n = replicate n 0

-- The last block of the loop: `mem_block_remained` bytes in memory that `memset` cleared.
abbrev pub last_part : ℕ → List ℕ → Block
last_part remained ptr = record {
  memory = take remained ptr ++ zeroes (block_size - remained);
  occupied = remained;
}

-- The `for` loop over `suc n` blocks, with what it adds to `total_written`.
unfoldable pub fill_blocks : ℕ → ℕ → List ℕ → List Block × ℕ
fill_blocks zero remained ptr = (last_part remained ptr ∷ [], remained)
fill_blocks (suc n) remained ptr =
    let (rest, written) = fill_blocks n remained (drop block_size ptr) in
    ((record { memory = take block_size ptr; occupied = block_size }) ∷ rest, block_size + written)

-- `total_blocks` less one.
unfoldable pub extra_blocks : ℕ → ℕ
extra_blocks size =
    if ltb block_size size
    then (if ltb 0 (size % block_size) then size / block_size + 1 else size / block_size) - 1
    else 0

-- The blocks that become `*first_block`, and the number returned. A `size` past the end of `data`
-- is read out of bounds, as far as the copies go.
unfoldable pub allocate_block : List ℕ → ℕ → Outcome Trap (List Block × ℕ)
allocate_block data' size =
    let (blocks, written) = fill_blocks (extra_blocks size) (size % block_size) data' in
    if size == 0
    then err abort
    else if leb written (length data')
    then ok (blocks, written)
    else err fault

-- `while (block != NULL) { size += block->occupied; block = block->next; }`
unfoldable pub total_occupied : List Block → ℕ
total_occupied [] = 0
total_occupied (b ∷ bs) = b.occupied + total_occupied bs

-- `memcpy(buf + at, bytes)` into a caller's array: past its end it is a fault.
pub copy_to : List ℕ → ℕ → List ℕ → Option (List ℕ)
copy_to buf at bytes =
    if leb (at + length bytes) (length buf)
    then some (take at buf ++ (bytes ++ drop (at + length bytes) buf))
    else none

-- The variables of `read_data`: the array and `buf`'s place in it, `total_read`, `fd->offset`.
-- `bl` is passed beside them, as the blocks from it on.
pub record Progress : Type 0 where
  pub array : List ℕ
  pub buf : ℕ
  pub total_read : ℕ
  pub offset : ℕ

-- What a round does behind its `memcpy`: at the last block it breaks, else `buf` and the offset
-- move by the size of the block that comes next.
abbrev pub next_block : Progress → List Block → Progress
next_block r [] = r
next_block r (b ∷ bs) = record r { buf = r.buf + b.occupied; offset = r.offset + b.occupied }

-- The `for` loop. It ends early where `bl` becomes NULL, and `bl` is not NULL where it begins.
pub read_blocks : ℕ → Progress → List Block → Option (Progress × List Block)
read_blocks zero r bl = some (r, bl)
read_blocks (suc n) r [] = some (r, [])
read_blocks (suc n) r (b ∷ bs) = elim (copy_to r.array r.buf (take b.occupied b.memory)) [
  | none ↦ none
  | some array ↦
      let copied = record r { array = array; total_read = r.total_read + b.occupied } in
      read_blocks n (next_block copied bs) bs
]

-- `if (remained != 0 || bl != NULL)` and the `assert`, behind the loop.
pub read_rest : ℕ → Progress → List Block → Outcome Trap (List ℕ × ℕ)
read_rest remained r [] =
    if remained == 0
    then (if r.offset == r.total_read then ok (r.array, r.total_read) else err abort)
    else err fault
read_rest remained r (b ∷ bs) = elim (copy_to r.array r.buf (take remained b.memory)) [
  | none ↦ err fault
  | some array ↦
      if (r.offset + remained) == (r.total_read + remained)
      then ok (array, r.total_read + remained)
      else err abort
]

-- `read_data` from `fd->offset` and the file's blocks: the caller's array, and `total_read`.
pub read_data : ℕ → List Block → List ℕ → ℕ → ℕ → Outcome Trap (List ℕ × ℕ)
read_data offset blocks array block_count remained =
    let start : Progress = record { array = array; buf = 0; total_read = 0; offset = offset } in
    elim (read_blocks block_count start blocks) [
      | none ↦ err fault
      | some (r, bl) ↦ read_rest remained r bl
    ]
