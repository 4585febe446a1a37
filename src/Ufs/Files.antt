-- ===== src/Ufs/Files.antt =====
-- The list of files: `find_file_struct`, `alloc_file_struct`, `deallocate_file`, `write_data`.
pub mod Directory
use sysprog_solutions.Common.{
  ℕ, zero, suc, ◌&&◌, Bool, true, false, List, [], ◌∷◌, ◌++◌, Option, none, some, ltb, ◌==◌,
  if◌then◌else◌, length, Outcome, ok, err, pure, raise, ◌>>=◌, ◌>>◌,
}
use sysprog_solutions.Ufs.State.{
  Text, Block, File, Call, Trap, fault, out_of_fuel, load_file, store_file, max_file_size,
}
use sysprog_solutions.Ufs.Blocks.{allocate_block}

-- `!strcmp(a, b)`
unfoldable pub same_text : Text → Text → Bool
same_text [] [] = true
same_text (a ∷ s) (b ∷ t) = a == b && same_text s t
same_text _ _ = false

-- A file whose name is NULL has no name.
abbrev pub has_name : Option Text → Text → Bool
has_name none filename = false
has_name (some n) filename = same_text n filename

-- The loop of `find_file_struct` from `file` on.
unfoldable pub find_from : ℕ → Option ℕ → Text → Call (Option ℕ)
unfolding same_text
find_from k none filename = pure none
find_from zero (some a) filename = raise out_of_fuel
find_from (suc k) (some a) filename = do
  f ← load_file a
  if has_name f.name filename then pure (some a) else find_from k f.prev filename

-- Each file is older than the one that `file_list` or a `prev` reaches it from.
unfoldable pub find_file_struct : Text → Call (Option ℕ)
unfolding find_from
find_file_struct filename s = find_from (length s.files) s.file_list filename s

-- `if (file->prev != NULL) file->prev->next = file;`
abbrev pub link_next : Option ℕ → ℕ → Call (Unit {0})
link_next none file = pure tt
link_next (some p) file = do f ← load_file p; store_file p (some (record f { next = some file }))

abbrev pub new_file : Text → Option ℕ → File
new_file filename prev = record {
  block_list = none;
  refs = 0;
  name = some filename;
  next = none;
  prev = prev;
}

abbrev pub push_file : File → Call ℕ
push_file f s = ok (length s.files, record s { files = s.files ++ some f ∷ [] })

abbrev pub set_file_list : ℕ → Call (Unit {0})
set_file_list a s = ok (tt, record s { file_list = some a })

abbrev pub get_file_list : Call (Option ℕ)
get_file_list s = ok (s.file_list, s)

-- `malloc` is taken to succeed, as the `assert` behind it demands.
unfoldable pub alloc_file_struct : Text → Call ℕ
alloc_file_struct filename = do
  prev ← get_file_list
  file ← push_file (new_file filename prev)
  link_next prev file
  set_file_list file
  pure file

-- The blocks that the file had are not freed.
abbrev pub put_blocks : ℕ → Outcome Trap (List Block × ℕ) → Call ℕ
put_blocks a (err e) = raise e
put_blocks a (ok (blocks, written)) = do
  f ← load_file a
  store_file a (some (record f { block_list = some blocks }))
  pure written

unfoldable pub write_data : ℕ → List ℕ → ℕ → Call ℕ
write_data file data' size =
    let sz = if ltb max_file_size size then max_file_size else size in
    put_blocks file (allocate_block data' sz)

-- `deallocate_file` reads `block_list`, frees the blocks and the name with the file, and leaves
-- the file in the list of files.
abbrev pub free_blocks : Option (List Block) → ℕ → Call (Unit {0})
free_blocks none a = raise fault
free_blocks (some blocks) a = store_file a none

unfoldable pub deallocate_file : ℕ → Call (Unit {0})
deallocate_file a = do f ← load_file a; free_blocks f.block_list a
