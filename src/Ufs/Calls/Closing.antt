-- ===== src/Ufs/Calls/Closing.antt =====
-- `ufs_close`, and the list of files behind it.
use sysprog_solutions.Common.{
  ℕ, zero, suc, ◌≡◌, refl, true, false, List, some, none, set, length, get_elem?, ok, arith, ◌<◌,
  Option, get_elem?-set_self, ◌-◌, ◌==◌, lt-of-get_elem?, err, ap, set-set, if◌then◌else◌,
}
use sysprog_solutions.Ufs.State.{Text, Block, File, Filedesc, OpenFlags, Ufs, fault, value}
use sysprog_solutions.Ufs.Files.Directory.{Directory}
use sysprog_solutions.Ufs.Calls.{ufs_close, ufs_open, ufs_delete}
use sysprog_solutions.Ufs.Files.{find_from, find_file_struct, deallocate_file}
use sysprog_solutions.Ufs.Calls.Writing.{IsOpen}
use native.Mathlib.Decide.{dec_lt}

find_from_freed :
    (k a : ℕ) (o : Option ℕ) (filename : Text) (s : Ufs)
    → 0 < k
    → o ≡ some a
    → get_elem? s.files a ≡ some none
    → find_from k o filename s ≡ err fault
unfolding find_from
find_from_freed zero a o filename s h head e = absurd (omega arith)
find_from_freed (suc k) a o filename s h head e = rw (head, e)

-- Where the newest file is freed, every search stops.
find_file_struct_freed :
    (a : ℕ) (filename : Text) (s : Ufs)
    → s.file_list ≡ some a
    → get_elem? s.files a ≡ some none
    → find_file_struct filename s ≡ err fault
unfolding find_file_struct
find_file_struct_freed a filename s head freed =
    let some_round : 0 < length s.files = omega (arith, lt-of-get_elem? s.files a freed) in
    find_from_freed (length s.files) a s.file_list filename s some_round head freed

-- The state with the descriptor freed, and `o` in place of its file.
abbrev pub closed : Ufs → ℕ → Filedesc → Option File → Ufs
closed s d fd o = record s {
  files = set s.files fd.file o;
  filedescs = set s.filedescs d none;
  file_descriptor_count = s.file_descriptor_count - 1;
}

module _ {s : Ufs} {fdno d : ℕ} {fd : Filedesc} {f : File} (is : IsOpen s fdno d fd f) where
  -- Closing one of several descriptors of a file returns 0, takes one off the references of the
  -- file, frees the descriptor, and lowers the count of descriptors by one; nothing else changes.
  pub ufs_close_shared :
      1 < f.refs
      → ufs_close fdno s ≡ ok (value 0, closed s d fd (some (record f { refs = f.refs - 1 })))
  unfolding ufs_close
  ufs_close_shared many =
      let more : (f.refs == 1) ≡ false = ground arith in rw (is.slot, is.desc, is.file, more) refl

  -- Closing the last descriptor of a file that was written returns 0, frees the file with its
  -- blocks and the descriptor, and lowers the count of descriptors by one; nothing else changes.
  pub ufs_close_last :
      {blocks : List Block}
      → f.refs ≡ 1
      → f.block_list ≡ some blocks
      → ufs_close fdno s ≡ ok (value 0, closed s d fd none)
  unfolding ufs_close deallocate_file
  ufs_close_last {blocks} last held =
      let stored =
        get_elem?-set_self s.files fd.file (some (record f { refs = f.refs - 1 }))
          (lt-of-get_elem? s.files fd.file is.file) in
      let same : (f.refs == 1) ≡ true = ground arith in
      rw (is.slot, is.desc, is.file, same, stored, held)
        (ap
          (λ fs. ok (
            value 0,
            record s {
              files = fs;
              filedescs = set s.filedescs d none;
              file_descriptor_count = s.file_descriptor_count - 1;
            },
          ))
          (set-set s.files fd.file _ none))

  -- Closing a descriptor of a file that was written returns 0, frees the descriptor and lowers the
  -- count of descriptors by one. The last descriptor of the file frees the file with its blocks too;
  -- any other takes one off its references. Nothing else changes.
  ufs_close-closed :
      {blocks : List Block}
      → 0 < f.refs
      → f.block_list ≡ some blocks
      → ufs_close fdno s
        ≡ ok (
          value 0,
          closed s d fd (if f.refs == 1 then none else some (record f { refs = f.refs - 1 })),
        )
  ufs_close-closed some_refs held = elim (dec_lt 1 f.refs) [
    | yes many ↦ let more : (f.refs == 1) ≡ false = ground arith in rw more (ufs_close_shared many)
    | no one ↦
        let same : (f.refs == 1) ≡ true = ground arith in
        rw same (ufs_close_last (omega arith) held)
  ]

  -- Where the newest file was written and its last descriptor is closed, the close returns 0 and
  -- frees the file, but the list of files still begins at it: from there every `ufs_open` and every
  -- `ufs_delete`, of any name, reads freed memory.
  pub ufs_close_dangling :
      {blocks : List Block} (filename : Text) (flags : OpenFlags)
      → f.refs ≡ 1
      → f.block_list ≡ some blocks
      → s.file_list ≡ some fd.file
      → (s' : Ufs) × (ufs_close fdno s ≡ ok (value 0, s'))
        × (s'.file_list ≡ some fd.file)
        × (get_elem? s'.files fd.file ≡ some none)
        × (ufs_open filename flags s' ≡ err fault)
        × (ufs_delete filename s' ≡ err fault)
  unfolding ufs_open ufs_delete
  ufs_close_dangling filename flags last held head =
      let s' = closed s d fd none in
      let gone =
        get_elem?-set_self s.files fd.file none (lt-of-get_elem? s.files fd.file is.file) in
      let search = find_file_struct_freed fd.file filename s' head gone in
      (s', ufs_close_last last held, head, gone, rw search refl, rw search refl)
