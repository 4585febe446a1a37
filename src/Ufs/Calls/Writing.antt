-- ===== src/Ufs/Calls/Writing.antt =====
-- `ufs_write`, and what `file_size` and `ufs_read` make of it.
use sysprog_solutions.Common.{
  ℕ, ◌≤◌, ◌≡◌, List, some, ltb, set, get_elem?, ok, arith, true, false, refl, get_elem?-set_self,
  lt-of-get_elem?, Outcome, ◌<◌, length, Ensures, take, ◌>>=◌, ◌≢◌, ◌++◌, returns, and_then, drop,
  ◌*◌, ◌/◌, suc, err, ◌%◌, stops, ◌∷◌, [],
}
use sysprog_solutions.Ufs.State.{
  Block, File, Filedesc, Mode, pointer, Ufs, value, max_file_size, read_write, Trap, Call,
  out_of_fuel,
}
use sysprog_solutions.Ufs.Blocks.{allocate_block, last_part}
use sysprog_solutions.Ufs.Files.{write_data}
use sysprog_solutions.Ufs.Calls.{
  ufs_write, may_write, file_size, ufs_read, read_write, Trap, Call, lift,
}
use sysprog_solutions.Ufs.Blocks.Contents.{
  kept, contents, allocate_block-kept, allocate_block_short,
}
use sysprog_solutions.Ufs.Blocks.Reading.{Refuses, read_data-Refuses, read_data_short}

-- The descriptor number `fdno` stands for the descriptor `fd` at `d`, on the file `f`.
pub record IsOpen (s : Ufs) (fdno d : ℕ) (fd : Filedesc) (f : File) : Type 0 where
  pub slot : get_elem? s.file_descriptors fdno ≡ some (pointer d)
  pub desc : get_elem? s.filedescs d ≡ some (some fd)
  pub file : get_elem? s.files fd.file ≡ some (some f)

-- A call that goes on only where its part returns.
stuck :
    {A B : Type 0} {P : B → Ufs → Type 0} (o : Outcome Trap A) (k : A → Call B) (s : Ufs)
    → Refuses o
    → Ensures P (λ e. e ≢ out_of_fuel) (and_then (lift o s) k)
stuck (ok a) k s h = absurd h
stuck (err e) k s h = stops h

-- The state with new blocks in the file, and the offset behind them.
abbrev pub written : Ufs → ℕ → Filedesc → File → List Block → ℕ → Ufs
written s d fd f blocks n = record s {
  files = set s.files fd.file (some (record f { block_list = some blocks }));
  filedescs = set s.filedescs d (some (record fd { offset = n }));
}

module _ {s : Ufs} {fdno d : ℕ} {fd : Filedesc} {f : File} (is : IsOpen s fdno d fd f) where
  pub written-IsOpen :
      (blocks : List Block) (n : ℕ)
      → IsOpen
          (written s d fd f blocks n)
          fdno
          d
          (record fd { offset = n })
          (record f { block_list = some blocks })
  written-IsOpen blocks n = record {
    slot = is.slot;
    desc = get_elem?-set_self s.filedescs d _ (lt-of-get_elem? s.filedescs d is.desc);
    file = get_elem?-set_self s.files fd.file _ (lt-of-get_elem? s.files fd.file is.file);
  }

  -- A write that the mode allows, of blocks that could be allocated.
  pub ufs_write-blocks :
      (m : Mode) (buf : List ℕ) (size : ℕ) {blocks : List Block} {n : ℕ}
      → fd.mode ≡ some m
      → may_write m ≡ true
      → size ≤ max_file_size
      → allocate_block buf size ≡ ok (blocks, n)
      → ufs_write fdno buf size s ≡ ok (value n, written s d fd f blocks n)
  unfolding ufs_write write_data
  ufs_write-blocks m buf size mode may small e =
      let clamp : ltb max_file_size size ≡ false = ground arith in
      rw (is.slot, is.desc, mode, may, clamp, e, is.file) refl

  -- A write of 1 to 2^30 bytes by a descriptor that may write returns `kept size`: `size`, but eight
  -- bytes less at a multiple of eight. The file then holds so many bytes of the data, the
  -- descriptor's offset stands behind them, and nothing else changes.
  pub ufs_write-kept :
      (m : Mode) (buf : List ℕ) (size : ℕ)
      → fd.mode ≡ some m
      → may_write m ≡ true
      → 0 < size
      → size ≤ max_file_size
      → size ≤ length buf
      → (blocks : List Block) × (ufs_write fdno buf size s
          ≡ ok (value (kept size), written s d fd f blocks (kept size)))
        × (contents blocks ≡ take (kept size) buf)
  ufs_write-kept m buf size mode may pos small l =
      let (blocks, e, filled) = allocate_block-kept buf size pos l in
      (blocks, ufs_write-blocks m buf size mode may small e, filled.holds)

  -- Behind a write of 1 to 2^30 bytes by a descriptor that may write, `file_size` returns `kept
  -- size`, what the write returned.
  file_size-ufs_write :
      (m : Mode) (buf : List ℕ) (size : ℕ)
      → fd.mode ≡ some m
      → may_write m ≡ true
      → 0 < size
      → size ≤ max_file_size
      → size ≤ length buf
      → Ensures
          (λ n _. n ≡ kept size)
          (λ _. ⊥)
          ((ufs_write fdno buf size >>= λ _. file_size fdno) s)
  unfolding file_size
  file_size-ufs_write m buf size mode may pos small l =
      let (blocks, e, filled) = allocate_block-kept buf size pos l in
      let is' = written-IsOpen blocks (kept size) in
      rw (ufs_write-blocks m buf size mode may small e, is'.slot, is'.desc, is'.file)
        (returns filled.occupies)

  -- By a descriptor open to read and write, a write of 1 to 7 bytes is read back whole by a read of
  -- a positive multiple of eight bytes by the same descriptor at once behind it, into an array that
  -- the bytes fit into; the rest of the array stays.
  pub ufs_read-ufs_write_short :
      (buf array : List ℕ) (n k : ℕ)
      → fd.mode ≡ some read_write
      → 0 < n
      → n < 8
      → n ≤ length buf
      → n ≤ length array
      → Ensures
          (λ r _. r ≡ (value n, take n buf ++ drop n array))
          (λ _. ⊥)
          ((ufs_write fdno buf n >>= λ _. ufs_read fdno array (8 * suc k)) s)
  unfolding ufs_read
  ufs_read-ufs_write_short buf array n k mode pos lt l m =
      let is' = written-IsOpen (last_part n buf ∷ []) n in
      let whole : 8 * suc k / 8 ≡ suc k = omega arith in
      let none_left : 8 * suc k % 8 ≡ 0 = omega arith in
      rw
        (
          ufs_write-blocks read_write buf n mode refl (omega arith)
              (allocate_block_short buf n pos lt l),
          is'.slot,
          is'.desc,
          mode,
          is'.file,
          whole,
          none_left,
          read_data_short buf array n k l m,
        )
        (returns refl)

  -- By a descriptor open to read and write, no read of it returns at once behind a write of which
  -- more than eight bytes are kept: the read fails an `assert`, or accesses memory out of bounds.
  pub ufs_read-ufs_write_long :
      (buf array : List ℕ) (size count : ℕ)
      → fd.mode ≡ some read_write
      → 0 < size
      → size ≤ max_file_size
      → size ≤ length buf
      → 8 < kept size
      → Ensures
          (λ _ _. ⊥)
          (λ e. e ≢ out_of_fuel)
          ((ufs_write fdno buf size >>= λ _. ufs_read fdno array count) s)
  unfolding ufs_read
  ufs_read-ufs_write_long buf array size count mode pos small l long =
      let (blocks, e, filled) = allocate_block-kept buf size pos l in
      let is' = written-IsOpen blocks (kept size) in
      rw
        (ufs_write-blocks read_write buf size mode refl small e, is'.slot, is'.desc, mode, is'.file)
        (stuck _ _ _ (
          read_data-Refuses (kept size) blocks array (count / 8) (count % 8)
            (omega (arith, filled.first))))
