-- ===== src/Ufs/Program.antt =====
-- The `main` of src/fs/userfs.c, which stands in a comment.
use sysprog_solutions.Common.{ℕ, ◌>>=◌, ◌>>◌, List, ok, pure, raise, true, false, replicate, length}
use sysprog_solutions.Ufs.State.{Text, OpenFlags, Call, Result, minus_one, value, Slot, wild, fault}
use sysprog_solutions.Ufs.Calls.{ufs_open, ufs_write, file_size, ufs_delete, ufs_close}

abbrev file_descriptor_capacity : ℕ
file_descriptor_capacity = 100

abbrev set_file_descriptors : List Slot → Call (Unit {0})
set_file_descriptors slots s = ok (tt, record s { file_descriptors = slots })

-- A result as an index of the array: -1 is out of bounds.
abbrev index_of : Result → Call ℕ
index_of minus_one = raise fault
index_of (value n) = pure n

abbrev create_read_write : OpenFlags
create_read_write = record {
  create = true;
  read_only = false;
  write_only = false;
  read_write = true;
}

-- The calls of `main` on its two names and its text, up to the `ufs_close` calls.
unfoldable pub main_open : Text → Text → List ℕ → Call (ℕ × ℕ × ℕ × ℕ)
main_open demo demo2 hello = do
  set_file_descriptors (replicate file_descriptor_capacity wild)
  fd ← ufs_open demo create_read_write
  nfd ← ufs_open demo2 create_read_write
  i ← index_of fd
  written ← ufs_write i hello (length hello)
  size ← file_size i
  fd2 ← ufs_open demo create_read_write
  fd3 ← ufs_open demo (record create_read_write { create = false })
  res ← ufs_delete demo
  fd4 ← ufs_open demo create_read_write
  j ← index_of nfd
  k ← index_of fd3
  l ← index_of fd4
  pure (i, j, k, l)

unfoldable pub main : Text → Text → List ℕ → Call (Unit {0})
main demo demo2 hello = do
  (fd, nfd, fd3, fd4) ← main_open demo demo2 hello
  closed3 ← ufs_close fd3
  closed ← ufs_close fd
  closed4 ← ufs_close fd4
  closed_n ← ufs_close nfd
  pure tt
