-- ===== src/Ufs/Tests.antt =====
-- Runs of the file system, and the theorems of Ufs at concrete states.
use sysprog_solutions.Common.{
  ℕ, ◌>>=◌, Ensures, Bool, List, ◌∷◌, refl, ◌≢◌, [], true, ◌≡◌, some, none, ok, false, err,
  replicate, arith, take, get_elem?,
}
use sysprog_solutions.Ufs.State.{
  Mode, Ufs, File, Text, Filedesc, no_file, Block, OpenFlags, no_err, value, out_of_fuel, pointer,
  wild, fault, ufs_errno,
}
use sysprog_solutions.Ufs.Blocks.Contents.{kept, Filled, allocate_block-kept, contents}
use sysprog_solutions.Ufs.Files.Directory.{lookup, Linked, cons, nil, find_file_struct-lookup}
use sysprog_solutions.Ufs.Calls.Writing.{
  IsOpen, written, ufs_read-ufs_write_short, ufs_read-ufs_write_long, ufs_write-kept,
}
use sysprog_solutions.Ufs.Calls.{
  fail, ufs_write, ufs_open, ufs_close, open_file, file_size, ufs_read, ufs_delete, find_filedesc,
}
use sysprog_solutions.Ufs.Files.{
  new_file, write_data, same_text, find_file_struct, alloc_file_struct, deallocate_file,
  deallocate_file,
}
use sysprog_solutions.Ufs.Blocks.{allocate_block, fill_blocks, extra_blocks, total_occupied}
use sysprog_solutions.Ufs.Calls.Opening.{Created, ufs_open-Created}
use sysprog_solutions.Ufs.Calls.Closing.{ufs_close_dangling}
use sysprog_solutions.Ufs.Program.{main, main_open}

abbrev name : Text
name = b'a' ∷ []

abbrev other : Text
other = b'b' ∷ []

abbrev flags_of : Bool → OpenFlags
flags_of c = record { create = c; read_only = false; write_only = false; read_write = true }

abbrev start : Ufs
start = record {
  ufs_err_code = no_err;
  stderr = [];
  file_list = none;
  files = [];
  filedescs = [];
  file_descriptors = wild ∷ wild ∷ [];
  file_descriptor_count = 0;
}

abbrev file_a : File
file_a = record (new_file name none) { refs = 1 }

abbrev desc_a : Filedesc
desc_a = record { file = 0; offset = 0; mode = some Mode.read_write }

-- The state with `name` open.
abbrev opened : Ufs
opened = record start {
  file_list = some 0;
  files = some file_a ∷ [];
  filedescs = some desc_a ∷ [];
  file_descriptors = pointer 0 ∷ wild ∷ [];
  file_descriptor_count = 1;
}

-- The same with one block in the file, and `refs` open descriptors.
abbrev held : ℕ → File
held refs = record file_a {
  block_list = some ((record { memory = 7 ∷ []; occupied = 1 }) ∷ []);
  refs = refs;
}

abbrev with_block : ℕ → Ufs
with_block refs = record opened { files = some (held refs) ∷ [] }

open_run : ufs_open name (flags_of true) start ≡ ok (value 0, opened)
unfolding ufs_open open_file find_file_struct alloc_file_struct
open_run = refl

abbrev shared_file : File
shared_file = record file_a { refs = 2 }

abbrev opened_twice : Ufs
opened_twice = record opened {
  files = some shared_file ∷ [];
  filedescs = some desc_a ∷ some desc_a ∷ [];
  file_descriptors = pointer 0 ∷ pointer 1 ∷ [];
  file_descriptor_count = 2;
}

-- The second descriptor gets the offset of the first.
reopen_run : ufs_open name (flags_of false) opened ≡ ok (value 1, opened_twice)
unfolding ufs_open open_file find_file_struct find_filedesc same_text
reopen_run = refl

errno_run : ufs_errno (record opened { ufs_err_code = no_file }) ≡ no_file
unfolding ufs_errno
errno_run = refl

-- Eight bytes are lost.
write_run :
    (ufs_write 0 (1 ∷ 2 ∷ 3 ∷ 4 ∷ 5 ∷ 6 ∷ 7 ∷ 8 ∷ []) 8 >>= λ _. file_size 0) opened
    ≡ ok (
      0,
      written opened 0 desc_a file_a
          (record { memory = 0 ∷ 0 ∷ 0 ∷ 0 ∷ 0 ∷ 0 ∷ 0 ∷ 0 ∷ []; occupied = 0 } ∷ [])
          0,
    )
unfolding ufs_write write_data allocate_block fill_blocks extra_blocks file_size total_occupied
write_run = refl

-- `main` opens its four descriptors, and faults at the third close: the file was never written.
main_open_run : (s : Ufs) × (main_open name other (replicate 29 1) start ≡ ok ((0, 1, 2, 3), s))
unfolding main_open ufs_open open_file find_file_struct alloc_file_struct find_filedesc same_text
    ufs_write write_data allocate_block fill_blocks extra_blocks file_size total_occupied ufs_delete
    fail
main_open_run = (_, refl)

main_faults : main name other (replicate 29 1) start ≡ err fault
unfolding main main_open ufs_open open_file find_file_struct alloc_file_struct find_filedesc
    same_text ufs_write write_data allocate_block fill_blocks extra_blocks file_size total_occupied
    ufs_delete fail ufs_close deallocate_file
main_faults = refl

opened-IsOpen : IsOpen opened 0 0 desc_a file_a
opened-IsOpen = record { slot = refl; desc = refl; file = refl }

with_block-IsOpen : (refs : ℕ) → IsOpen (with_block refs) 0 0 desc_a (held refs)
with_block-IsOpen refs = record { slot = refl; desc = refl; file = refl }

start-Linked : Linked start.files start.file_list []
start-Linked = nil

opened-Linked : Linked opened.files opened.file_list ((0, some name) ∷ [])
opened-Linked = cons {f = file_a} refl tt nil

find_file_struct-lookup_example : find_file_struct other opened ≡ ok (none, opened)
unfolding lookup same_text
find_file_struct-lookup_example = find_file_struct-lookup other opened opened-Linked

ufs_open-Created_example :
    Ensures
      (λ r s'. (r ≡ value 0) × Created start name (flags_of true) [] s')
      (λ _. ⊥)
      (ufs_open name (flags_of true) start)
unfolding lookup
ufs_open-Created_example =
    ufs_open-Created name (flags_of true) start start-Linked refl refl (omega arith)

abbrev bytes : List ℕ
bytes = 1 ∷ 2 ∷ 3 ∷ 4 ∷ 5 ∷ 6 ∷ 7 ∷ 8 ∷ 9 ∷ []

allocate_block-kept_example :
    (blocks : List Block) × (allocate_block bytes 9 ≡ ok (blocks, kept 9))
    × Filled (kept 9) bytes blocks
allocate_block-kept_example = allocate_block-kept bytes 9 (omega arith) (omega arith)

ufs_write-kept_example :
    (blocks : List Block) × (ufs_write 0 bytes 9 opened
      ≡ ok (value (kept 9), written opened 0 desc_a file_a blocks (kept 9)))
    × (contents blocks ≡ take (kept 9) bytes)
ufs_write-kept_example =
    ufs_write-kept opened-IsOpen Mode.read_write bytes 9 refl refl (omega arith) (omega arith)
      (omega arith)

ufs_read-ufs_write_short_example :
    Ensures
      (λ r _. r ≡ (value 2, 1 ∷ 2 ∷ 0 ∷ []))
      (λ _. ⊥)
      ((ufs_write 0 (1 ∷ 2 ∷ []) 2 >>= λ _. ufs_read 0 (0 ∷ 0 ∷ 0 ∷ []) 8) opened)
ufs_read-ufs_write_short_example =
    ufs_read-ufs_write_short opened-IsOpen (1 ∷ 2 ∷ []) (0 ∷ 0 ∷ 0 ∷ []) 2 0 refl (omega arith)
      (omega arith) (omega arith) (omega arith)

ufs_read-ufs_write_long_example :
    Ensures
      (λ _ _. ⊥)
      (λ e. e ≢ out_of_fuel)
      ((ufs_write 0 bytes 9 >>= λ _. ufs_read 0 (replicate 16 0) 16) opened)
unfolding kept
ufs_read-ufs_write_long_example =
    ufs_read-ufs_write_long opened-IsOpen bytes (replicate 16 0) 9 16 refl (omega arith)
      (omega arith) (omega arith) (omega arith)

ufs_close_dangling_example :
    (s' : Ufs) × (ufs_close 0 (with_block 1) ≡ ok (value 0, s'))
    × (s'.file_list ≡ some 0)
    × (get_elem? s'.files 0 ≡ some none)
    × (ufs_open other (flags_of true) s' ≡ err fault)
    × (ufs_delete other s' ≡ err fault)
ufs_close_dangling_example =
    ufs_close_dangling (with_block-IsOpen 1) other (flags_of true) refl refl refl
