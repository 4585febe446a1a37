-- ===== src/Ufs/State.antt =====
-- The types and the static variables of src/fs/userfs.h and userfs.c. Files and descriptors live on
-- a heap each: a pointer is a position, and a freed object leaves `none` there.
use sysprog_solutions.Common.{
  ℕ, Bool, List, [], ◌∷◌, ◌++◌, Option, none, some, Cmd, ok, err, Outcome, get_elem?, set,
}

abbrev pub Text : Type 0
Text = List ℕ

pub data ErrorCode : Type 0 where
  no_err no_file no_fd no_mem not_implemented no_permission : ErrorCode

-- The lines that `print_err_msg` writes.
pub data Message : Type 0 where
  no_file_message no_memory_message no_permission_message incorrect_number_message : Message

unfoldable pub print_err_msg : ErrorCode → Message
print_err_msg no_file = no_file_message
print_err_msg no_mem = no_memory_message
print_err_msg no_permission = no_permission_message
print_err_msg _ = incorrect_number_message

-- The flags of `ufs_open`, a bit each.
pub record OpenFlags : Type 0 where
  pub create : Bool
  pub read_only : Bool
  pub write_only : Bool
  pub read_write : Bool

pub data Mode : Type 0 where
  read_only write_only read_write : Mode

abbrev pub block_size : ℕ
block_size = 8

abbrev pub max_file_size : ℕ
max_file_size = 1073741824

-- `memory` has `block_size` bytes. The `next` pointers are the order of a list of blocks; `prev`
-- and a file's `last_block` are never read.
pub record Block : Type 0 where
  pub memory : List ℕ
  pub occupied : ℕ

-- `block_list` is `none` as long as it is uninitialised, and never empty. `name` is `none` once it
-- is NULL.
pub record File : Type 0 where
  pub block_list : Option (List Block)
  pub refs : ℕ
  pub name : Option Text
  pub next : Option ℕ
  pub prev : Option ℕ

-- `mode` is `none` where no flag sets it.
pub record Filedesc : Type 0 where
  pub file : ℕ
  pub offset : ℕ
  pub mode : Option Mode

-- An entry of the array `file_descriptors`: uninitialised, NULL, or a pointer.
pub data Slot : Type 0 where
  wild null : Slot
  pointer : ℕ → Slot

pub record Ufs : Type 0 where
  pub ufs_err_code : ErrorCode
  pub stderr : List Message
  pub file_list : Option ℕ
  pub files : List (Option File)
  pub filedescs : List (Option Filedesc)
  pub file_descriptors : List Slot
  pub file_descriptor_count : ℕ

-- How a call can stop the process: undefined behaviour, a failed `assert`, or too little fuel.
pub data Trap : Type 0 where
  fault abort out_of_fuel : Trap

abbrev pub Call : Type 0 → Type 0
Call A = Cmd Trap Ufs A

-- An `int` or `ssize_t` result.
pub data Result : Type 0 where
  minus_one : Result
  value : ℕ → Result

abbrev found : {A : Type 0} → Option (Option A) → Ufs → Outcome Trap (A × Ufs)
found (some (some a)) s = ok (a, s)
found _ s = err fault

-- Reads through a pointer: a freed object is a fault.
abbrev pub load_file : ℕ → Call File
load_file a s = found (get_elem? s.files a) s

abbrev pub load_filedesc : ℕ → Call Filedesc
load_filedesc d s = found (get_elem? s.filedescs d) s

abbrev pub store_file : ℕ → Option File → Call (Unit {0})
store_file a f s = ok (tt, record s { files = set s.files a f })

abbrev pub store_filedesc : ℕ → Option Filedesc → Call (Unit {0})
store_filedesc d f s = ok (tt, record s { filedescs = set s.filedescs d f })

abbrev pub in_slot : Option Slot → Ufs → Outcome Trap (Option ℕ × Ufs)
in_slot (some (pointer d)) s = ok (some d, s)
in_slot (some null) s = ok (none, s)
in_slot _ s = err fault

-- `file_descriptors[i]`; `none` is NULL.
abbrev pub load_slot : ℕ → Call (Option ℕ)
load_slot i s = in_slot (get_elem? s.file_descriptors i) s

-- `ufs_err_code = e; print_err_msg(ufs_err_code);`
unfoldable pub set_error : ErrorCode → Call (Unit {0})
unfolding print_err_msg
set_error e s = ok (tt, record s { ufs_err_code = e; stderr = s.stderr ++ print_err_msg e ∷ [] })

unfoldable pub ufs_errno : Ufs → ErrorCode
ufs_errno s = s.ufs_err_code
