-- ===== src/Ufs/Calls.antt =====
-- The calls of src/fs/userfs.h. `OpenFlags` holds a bit for each flag; a descriptor number is an
-- index that is not negative.
pub mod Closing
pub mod Deleting
pub mod Opening
pub mod Writing
use sysprog_solutions.Common.{
  ℕ, zero, suc, ◌+◌, ◌-◌, ◌/◌, ◌%◌, ◌^◌, Bool, true, false, List, [], ◌∷◌, ◌++◌, Option, none, some,
  ltb, ◌==◌, if◌then◌else◌, length, set, Outcome, ok, err, pure, raise, ◌>>=◌, ◌>>◌,
}
use sysprog_solutions.Ufs.State.{
  Text, Block, Filedesc, Mode, read_only, write_only, read_write, OpenFlags, pointer, Call, Trap,
  fault, abort, Result, minus_one, value, no_file, no_permission, load_file, store_file,
  load_filedesc, store_filedesc, load_slot, set_error, block_size, ErrorCode,
}
use sysprog_solutions.Ufs.Blocks.{read_data, total_occupied}
use sysprog_solutions.Ufs.Files.{find_file_struct, alloc_file_struct, deallocate_file, write_data}

-- `ufs_err_code = e; print_err_msg(ufs_err_code); return -1;`
unfoldable pub fail : ErrorCode → Call Result
unfolding set_error
fail e = do set_error e; pure minus_one

abbrev pub some_or_fault : Option ℕ → Call ℕ
some_or_fault none = raise fault
some_or_fault (some d) = pure d

-- The loop of `find_filedesc` over `rounds` slots from `i` on. A NULL entry is dereferenced.
unfoldable pub find_filedesc_from : ℕ → ℕ → ℕ → Call (Option ℕ)
find_filedesc_from zero i file = pure none
find_filedesc_from (suc rounds) i file = do
  slot ← load_slot i
  d ← some_or_fault slot
  fd ← load_filedesc d
  if fd.file == file then pure (some d) else find_filedesc_from rounds (i + 1) file

unfoldable pub find_filedesc : ℕ → Call (Option ℕ)
unfolding find_filedesc_from
find_filedesc file s = find_filedesc_from s.file_descriptor_count 0 file s

abbrev pub mode_of : OpenFlags → Option Mode
mode_of flags =
    if flags.read_write
    then some read_write
    else if flags.read_only
    then some read_only
    else if flags.write_only
    then some write_only
    else none

abbrev pub push_filedesc : Filedesc → Call ℕ
push_filedesc fd s = ok (length s.filedescs, record s { filedescs = s.filedescs ++ some fd ∷ [] })

-- `int fdno = file_descriptor_count++; file_descriptors[fdno] = fd;`
abbrev pub install : ℕ → Call ℕ
install d s =
    let fdno = s.file_descriptor_count in
    if ltb fdno (length s.file_descriptors)
    then ok (
      fdno,
      record s {
        file_descriptors = set s.file_descriptors fdno (pointer d);
        file_descriptor_count = fdno + 1;
      },
    )
    else err fault

-- The end of `ufs_open`. The descriptor that `malloc` gave at the start, and that the failing
-- paths free, is put on the heap here.
unfoldable pub open_file : ℕ → ℕ → OpenFlags → Call Result
open_file file offset flags = do
  f ← load_file file
  store_file file (some (record f { refs = f.refs + 1 }))
  d ← push_filedesc (record { file = file; offset = offset; mode = mode_of flags })
  fdno ← install d
  pure (value fdno)

abbrev pub create_file : Option ℕ → Text → OpenFlags → Call Result
create_file (some file) filename flags = fail no_permission
create_file none filename flags = do
  file ← alloc_file_struct filename
  open_file file 0 (record flags { create = false })

-- The offset comes from the descriptor that is open on the file; with none the `assert` fails.
abbrev pub offset_of : Option ℕ → Call ℕ
offset_of none = raise abort
offset_of (some d) = do ffd ← load_filedesc d; pure ffd.offset

abbrev pub reopen_file : Option ℕ → OpenFlags → Call Result
reopen_file none flags = fail no_file
reopen_file (some file) flags = do
  ffd ← find_filedesc file
  offset ← offset_of ffd
  open_file file offset flags

unfoldable pub ufs_open : Text → OpenFlags → Call Result
ufs_open filename flags = do
  file ← find_file_struct filename
  if flags.create then create_file file filename flags else reopen_file file flags

abbrev pub may_write : Mode → Bool
may_write read_only = false
may_write _ = true

abbrev pub may_read : Mode → Bool
may_read write_only = false
may_read _ = true

-- A mode that was never set is read.
abbrev pub set_mode : Option Mode → Call Mode
set_mode none = raise fault
set_mode (some m) = pure m

abbrev pub write_to : Option ℕ → List ℕ → ℕ → Call Result
write_to none buf size = fail no_file
write_to (some d) buf size = do
  fd ← load_filedesc d
  mode ← set_mode fd.mode
  if may_write mode
      then (do
        bytes_written ← write_data fd.file buf size
        store_filedesc d (some (record fd { offset = bytes_written }))
        pure (value bytes_written))
      else fail no_permission

unfoldable pub ufs_write : ℕ → List ℕ → ℕ → Call Result
ufs_write fdno buf size = do slot ← load_slot fdno; write_to slot buf size

abbrev pub blocks_of : Option (List Block) → Call (List Block)
blocks_of none = raise fault
blocks_of (some blocks) = pure blocks

abbrev pub lift : {A : Type 0} → Outcome Trap A → Call A
lift (ok a) = pure a
lift (err e) = raise e

-- The result, and the caller's array afterwards.
abbrev pub read_from : Option ℕ → List ℕ → ℕ → Call (Result × List ℕ)
read_from none buf size = do r ← fail no_file; pure (r, buf)
read_from (some d) buf size = do
  fd ← load_filedesc d
  mode ← set_mode fd.mode
  if may_read mode
      then (do
        f ← load_file fd.file
        blocks ← blocks_of f.block_list
        (array, bytes_read) ←
            lift (read_data fd.offset blocks buf (size / block_size) (size % block_size))
        store_filedesc d (some (record fd { offset = bytes_read }))
        pure (value bytes_read, array))
      else (do r ← fail no_permission; pure (r, buf))

unfoldable pub ufs_read : ℕ → List ℕ → ℕ → Call (Result × List ℕ)
ufs_read fdno buf size = do slot ← load_slot fdno; read_from slot buf size

abbrev pub drop_count : Call (Unit {0})
drop_count s = ok (tt, record s { file_descriptor_count = s.file_descriptor_count - 1 })

-- The slot keeps its pointer. An open descriptor's file has a reference, so that `refs` and the
-- count do not fall below 0.
abbrev pub close_fd : Option ℕ → Call Result
close_fd none = fail no_file
close_fd (some d) = do
  fd ← load_filedesc d
  f ← load_file fd.file
  store_file fd.file (some (record f { refs = f.refs - 1 }))
  if f.refs == 1 then deallocate_file fd.file else pure tt
  store_filedesc d none
  drop_count
  pure (value 0)

unfoldable pub ufs_close : ℕ → Call Result
ufs_close fdno = do slot ← load_slot fdno; close_fd slot

abbrev pub remove_name : Option ℕ → Call Result
remove_name none = pure minus_one
remove_name (some file) = do
  f ← load_file file
  store_file file (some (record f { name = none }))
  pure (value 0)

unfoldable pub ufs_delete : Text → Call Result
ufs_delete filename = do file ← find_file_struct filename; remove_name file

-- `(size_t)-1`
abbrev pub size_error : ℕ
size_error = 2 ^ 64 - 1

abbrev pub size_of : Option ℕ → Call ℕ
size_of none = do set_error no_file; pure size_error
size_of (some d) = do
  fd ← load_filedesc d
  f ← load_file fd.file
  blocks ← blocks_of f.block_list
  pure (total_occupied blocks)

unfoldable pub file_size : ℕ → Call ℕ
file_size fdno = do slot ← load_slot fdno; size_of slot
