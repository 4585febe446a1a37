-- ===== src/Ufs/Spec.antt =====
-- What the calls of src/fs/userfs.h promise: a file system without pointers. A file is its number,
-- in the order of creation, and a descriptor number stands for a handle. The calls are `none` where
-- userfs.c keeps no promise.
pub mod Opening
pub mod Reopening
pub mod Reading
pub mod Represents
pub mod Closing
pub mod Creating
pub mod Deleting
pub mod Runs
mod Tests
pub mod Writing
use sysprog_solutions.Common.{
  ◌%◌, drop, Bool, true, false, ℕ, [], ◌∷◌, some, none, List, Option, length, set, take,
  if◌then◌else◌, ◌++◌, total, get_elem?, not, ◌==◌, ◌+◌, ltb, ◌&&◌, leb,
}
use sysprog_solutions.Ufs.State.{
  block_size, Text, OpenFlags, Result, minus_one, value, ErrorCode, no_file, no_permission, Message,
  no_file_message, no_permission_message, Mode, max_file_size,
}
use sysprog_solutions.Ufs.Files.Directory.{Directory, lookup}
use sysprog_solutions.Ufs.Calls.Deleting.{unname}
use sysprog_solutions.Ufs.Blocks.Contents.{kept}
use sysprog_solutions.Ufs.Calls.{may_read, may_write, mode_of}

-- A new file has nothing to read; one that was freed may not be looked for.
pub data Contents : Type 0 where
  unwritten freed : Contents
  holds : List ℕ → Contents

pub record Handle : Type 0 where
  pub file : ℕ
  pub offset : ℕ
  pub mode : Option Mode

-- `directory` is `none` once a file was freed; `room` is the length of the array of descriptors.
pub record Spec : Type 0 where
  pub directory : Option Directory
  pub contents : List Contents
  pub handles : List Handle
  pub room : ℕ
  pub error : ErrorCode
  pub messages : List Message

abbrev pub failed : ErrorCode → Message → Spec → Spec
failed e m a = record a { error = e; messages = a.messages ++ (m ∷ []) }

abbrev pub refuse : ErrorCode → Message → Spec → Option (Result × Spec)
refuse e m a = some (minus_one, failed e m a)

-- The first handle on a file: its offset goes to the next one.
pub handle_on : ℕ → List Handle → Option Handle
handle_on file [] = none
handle_on file (h ∷ hs) = let rest = handle_on file hs in if h.file == file then some h else rest

abbrev pub add_handle : Handle → Spec → Option (Result × Spec)
add_handle h a =
    if ltb (length a.handles) a.room
    then some (value (length a.handles), record a { handles = a.handles ++ (h ∷ []) })
    else none

abbrev pub create_named : Option ℕ → Text → OpenFlags → Directory → Spec → Option (Result × Spec)
create_named (some file) filename flags dir a = refuse no_permission no_permission_message a
create_named none filename flags dir a =
    let file = length a.contents in
    add_handle (record { file = file; offset = 0; mode = mode_of flags })
      (record a {
        directory = some ((file, some filename) ∷ dir);
        contents = a.contents ++ (unwritten ∷ []);
      })

abbrev pub share_handle : Option Handle → OpenFlags → Spec → Option (Result × Spec)
share_handle none flags a = none
share_handle (some h) flags a = add_handle (record h { mode = mode_of flags }) a

abbrev pub open_named : Option ℕ → OpenFlags → Spec → Option (Result × Spec)
open_named none flags a = refuse no_file no_file_message a
open_named (some file) flags a = share_handle (handle_on file a.handles) flags a

abbrev pub open_as : Bool → Option ℕ → Text → OpenFlags → Directory → Spec → Option (Result × Spec)
open_as true file filename flags dir a = create_named file filename flags dir a
open_as false file filename flags dir a = open_named file flags a

abbrev pub open_in : Option Directory → Text → OpenFlags → Spec → Option (Result × Spec)
open_in none filename flags a = none
open_in (some dir) filename flags a =
    open_as flags.create (lookup filename dir) filename flags dir a

pub spec_open : Text → OpenFlags → Spec → Option (Result × Spec)
unfolding handle_on
spec_open filename flags a = open_in a.directory filename flags a

-- A write of 1 to 2^30 bytes replaces the contents by the bytes that are kept.
abbrev pub write_handle : Option Handle → ℕ → List ℕ → ℕ → Spec → Option (Result × Spec)
write_handle none fdno buf size a = none
write_handle (some h) fdno buf size a = elim h.mode [
  | none ↦ none
  | some mode ↦
      if not (may_write mode)
      then refuse no_permission no_permission_message a
      else if (ltb 0 size && leb size max_file_size) && leb size (length buf)
      then some (
        value (kept size),
        record a {
          contents = set a.contents h.file (holds (take (kept size) buf));
          handles = set a.handles fdno (record h { offset = kept size });
        },
      )
      else none
]

pub spec_write : ℕ → List ℕ → ℕ → Spec → Option (Result × Spec)
spec_write fdno buf size a = write_handle (get_elem? a.handles fdno) fdno buf size a

-- A read returns the contents where they have fewer than eight bytes, the offset stands behind
-- them, the size is a multiple of eight, and the array is long enough.
abbrev pub readable : Handle → List ℕ → List ℕ → ℕ → Bool
readable h bytes array size =
    ((ltb 0 (length bytes) && ltb (length bytes) block_size) && h.offset == length bytes)
    && ((ltb 0 size && (size % block_size) == 0) && leb (length bytes) (length array))

abbrev pub read_contents :
    Option Contents → Handle → List ℕ → ℕ → Spec → Option ((Result × List ℕ) × Spec)
read_contents (some (holds bytes)) h array size a =
    if readable h bytes array size
    then some ((value (length bytes), bytes ++ drop (length bytes) array), a)
    else none
read_contents _ h array size a = none

abbrev pub read_as : Option Mode → Handle → List ℕ → ℕ → Spec → Option ((Result × List ℕ) × Spec)
read_as none h array size a = none
read_as (some mode) h array size a =
    if may_read mode
    then read_contents (get_elem? a.contents h.file) h array size a
    else some ((minus_one, array), failed no_permission no_permission_message a)

abbrev pub read_handle : Option Handle → List ℕ → ℕ → Spec → Option ((Result × List ℕ) × Spec)
read_handle none array size a = none
read_handle (some h) array size a = read_as h.mode h array size a

-- The result, and the caller's array.
pub spec_read : ℕ → List ℕ → ℕ → Spec → Option ((Result × List ℕ) × Spec)
spec_read fdno array size a = read_handle (get_elem? a.handles fdno) array size a

abbrev pub length_of : Option Contents → Option ℕ
length_of (some (holds bytes)) = some (length bytes)
length_of _ = none

abbrev pub size_at : Option Handle → Spec → Option ℕ
size_at none a = none
size_at (some h) a = length_of (get_elem? a.contents h.file)

pub spec_size : ℕ → Spec → Option ℕ
spec_size fdno a = size_at (get_elem? a.handles fdno) a

abbrev pub forget : Option ℕ → Directory → Spec → Result × Spec
forget none dir a = (minus_one, a)
forget (some file) dir a = (value 0, record a { directory = some (unname file dir) })

abbrev pub delete_in : Option Directory → Text → Spec → Option (Result × Spec)
delete_in none filename a = none
delete_in (some dir) filename a = some (forget (lookup filename dir) dir a)

pub spec_delete : Text → Spec → Option (Result × Spec)
spec_delete filename a = delete_in a.directory filename a

-- The handles on a file.
pub users : ℕ → List Handle → ℕ
users file hs = total (λ h. if h.file == file then 1 else 0) hs

-- A handle is closed where no later one is open, and the last one of a file frees it.
abbrev pub drop_handle : Option Handle → Option Contents → ℕ → Spec → Option (Result × Spec)
drop_handle (some h) (some c) fdno a =
    let rest = take fdno a.handles in
    if ltb 1 (users h.file a.handles) then some (value 0, record a { handles = rest }) else elim c [
      | holds bytes ↦ some (
        value 0,
        record a { directory = none; contents = set a.contents h.file freed; handles = rest },
      )
      | _ ↦ none
    ]
drop_handle _ _ fdno a = none

abbrev pub file_of : Option Handle → Spec → Option Contents
file_of none a = none
file_of (some h) a = get_elem? a.contents h.file

pub spec_close : ℕ → Spec → Option (Result × Spec)
unfolding users
spec_close fdno a =
    let h = get_elem? a.handles fdno in
    if (fdno + 1) == length a.handles then drop_handle h (file_of h a) fdno a else none
