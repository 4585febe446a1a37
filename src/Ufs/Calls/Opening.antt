-- ===== src/Ufs/Calls/Opening.antt =====
-- `ufs_open` by what the directory holds.
use sysprog_solutions.Common.{
  ℕ, ◌≡◌, ◌∙◌, refl, true, false, [], ◌∷◌, ◌++◌, Option, some, none, length, get_elem?, ok, arith,
  Ensures, returns, get_elem?-end, get_elem?-append, get_elem?-set_ne, lt-of-get_elem?, ◌<◌, bind,
  ltb, ap, get_elem?-set_self, subst, sym, Option-cases, Bool, inl, inr, ◌+◌, length-append, ◌⊎◌,
  List, length-set, get_elem?-lt, set,
}
use sysprog_solutions.Ufs.State.{
  Text, OpenFlags, Ufs, minus_one, no_permission, no_file, print_err_msg, no_permission_message,
  no_file_message, value, File,
}
use sysprog_solutions.Ufs.Files.{new_file, alloc_file_struct}
use sysprog_solutions.Ufs.Files.Directory.{
  Directory, Linked, nil, cons, lookup, find_file_struct-lookup, Linked-append, Linked-set, Below,
  Linked-Below,
}
use sysprog_solutions.Ufs.Calls.{fail, ufs_open, mode_of, open_file, value}
use sysprog_solutions.Ufs.Calls.Writing.{IsOpen}
use native.Mathlib.Decide.{ℕ_discrete}

-- On a well-formed list of files, `UFS_CREATE` for a name that a file has returns -1 with
-- `UFS_ERR_NO_PERMISSION` and its message; nothing else changes.
pub ufs_open_existing :
    (filename : Text) (flags : OpenFlags) (s : Ufs) (a : ℕ) {dir : Directory}
    → Linked s.files s.file_list dir
    → flags.create ≡ true
    → lookup filename dir ≡ some a
    → ufs_open filename flags s
      ≡ ok (
        minus_one,
        record s { ufs_err_code = no_permission; stderr = s.stderr ++ no_permission_message ∷ [] },
      )
unfolding ufs_open fail print_err_msg
ufs_open_existing filename flags s a l create there =
    rw (find_file_struct-lookup filename s l, create, there)

-- On a well-formed list of files, a name that no file has, without `UFS_CREATE`, gives -1 with
-- `UFS_ERR_NO_FILE` and its message; nothing else changes.
pub ufs_open_missing :
    (filename : Text) (flags : OpenFlags) (s : Ufs) {dir : Directory}
    → Linked s.files s.file_list dir
    → flags.create ≡ false
    → lookup filename dir ≡ none
    → ufs_open filename flags s
      ≡ ok (
        minus_one,
        record s { ufs_err_code = no_file; stderr = s.stderr ++ no_file_message ∷ [] },
      )
unfolding ufs_open fail print_err_msg
ufs_open_missing filename flags s l create missing =
    rw (find_file_struct-lookup filename s l, create, missing)

abbrev has_file : Text → Directory → Bool
has_file filename dir = elim (lookup filename dir) [ some a ↦ true | none ↦ false ]

-- The error and the message of an `ufs_open` that fails.
abbrev refused : Bool → Ufs → Ufs
refused true s = record s {
  ufs_err_code = no_permission;
  stderr = s.stderr ++ no_permission_message ∷ [];
}
refused false s = record s { ufs_err_code = no_file; stderr = s.stderr ++ no_file_message ∷ [] }

-- On a well-formed list of files, `ufs_open` fails where a file has the name and `UFS_CREATE` is
-- given, with `UFS_ERR_NO_PERMISSION`, and where none has it and `UFS_CREATE` is not given, with
-- `UFS_ERR_NO_FILE`: it returns -1 and prints the message, and nothing else changes.
ufs_open-refused :
    (filename : Text) (flags : OpenFlags) (s : Ufs) {dir : Directory}
    → Linked s.files s.file_list dir
    → flags.create ≡ has_file filename dir
    → ufs_open filename flags s ≡ ok (minus_one, refused flags.create s)
ufs_open-refused filename flags s {dir} l same = elim (Option-cases (lookup filename dir)) [
  | inl missing ↦
      let create : flags.create ≡ false = same ∙ rw (has_file, missing) refl in
      ufs_open_missing filename flags s l create missing ∙ rw create refl
  | inr (a, there) ↦
      let create : flags.create ≡ true = same ∙ rw (has_file, there) refl in
      ufs_open_existing filename flags s a l create there ∙ rw create refl
]

-- A file that is the same but for its `next`.
abbrev pub Renext : Option (Option File) → Option (Option File) → Type 0
Renext o o' =
    (o' ≡ o)
    ⊎ ((f : File) × (n : Option ℕ) × (o ≡ some (some f))
        × (o' ≡ some (some (record f { next = n }))))

appended :
    (files : List (Option File)) (v : Option File) (j : ℕ)
    → j < length files
    → get_elem? (files ++ (v ∷ [])) j ≡ get_elem? files j
appended files v j lt =
    let (x, e) = get_elem?-lt files j lt in get_elem?-append files (v ∷ []) j e ∙ sym e

-- What `alloc_file_struct` leaves.
pub record Allocated (s : Ufs) (filename : Text) (dir : Directory) (a : ℕ) (s' : Ufs) : Type 0 where
  pub address : a ≡ length s.files
  pub new : get_elem? s'.files a ≡ some (some (new_file filename s.file_list))
  pub linked : Linked s'.files s.file_list dir
  pub head : s'.file_list ≡ some a
  pub filedescs : s'.filedescs ≡ s.filedescs
  pub table : s'.file_descriptors ≡ s.file_descriptors
  pub count : s'.file_descriptor_count ≡ s.file_descriptor_count
  pub size : length s'.files ≡ length s.files + 1
  pub others : (j : ℕ) → j < length s.files → Renext (get_elem? s.files j) (get_elem? s'.files j)
  pub errno : s'.ufs_err_code ≡ s.ufs_err_code
  pub stderr : s'.stderr ≡ s.stderr

pub alloc_file_struct-Allocated :
    (filename : Text) (s : Ufs) (o : Option ℕ) {dir : Directory}
    → s.file_list ≡ o
    → Linked s.files o dir
    → Ensures (Allocated s filename dir) (λ _. ⊥) (alloc_file_struct filename s)
unfolding alloc_file_struct
alloc_file_struct-Allocated filename s o e nil = rw e (
    returns (record {
      address = refl;
      new = get_elem?-end s.files _;
      linked = nil;
      head = refl;
      filedescs = refl;
      table = refl;
      count = refl;
      size = length-append s.files _;
      others = λ j lt. inl (appended s.files _ j lt);
      errno = refl;
      stderr = refl;
    }))
alloc_file_struct-Allocated filename s o e (cons {a} {f} at b l) =
    let fresh = new_file filename (some a) in
    let linked = record f { next = some (length s.files) } in
    let grown = get_elem?-append s.files (some fresh ∷ []) a at in
    rw (e, grown)
      (returns (record {
        address = refl;
        new =
            get_elem?-set_ne (s.files ++ some fresh ∷ []) a (length s.files) (some linked)
              (λ x. absurd (omega (arith, lt-of-get_elem? s.files a at)))
            ∙ get_elem?-end s.files (some fresh);
        linked =
            Linked-set a f linked (Linked-append (some fresh ∷ []) (cons at b l)) grown refl refl;
        head = refl;
        filedescs = refl;
        table = refl;
        count = refl;
        size = length-set (s.files ++ some fresh ∷ []) a (some linked) ∙ length-append s.files _;
        others = λ j lt. elim (ℕ_discrete a j) [
          | yes same ↦ inr (
            f,
            some (length s.files),
            ap (get_elem? s.files) (sym same) ∙ at,
            ap (get_elem? (set (s.files ++ some fresh ∷ []) a (some linked))) (sym same)
                ∙ get_elem?-set_self (s.files ++ some fresh ∷ []) a (some linked)
                    (lt-of-get_elem? (s.files ++ some fresh ∷ []) a grown),
          )
          | no apart ↦ inl (
              get_elem?-set_ne (s.files ++ some fresh ∷ []) a j (some linked) apart
              ∙ appended s.files (some fresh) j lt)
        ];
        errno = refl;
        stderr = refl;
      }))

-- What a successful `ufs_open` with `UFS_CREATE` leaves: the new file comes first in the
-- directory, and the descriptor number returned is open on it, at offset 0.
pub record Created (s : Ufs) (filename : Text) (flags : OpenFlags) (dir : Directory) (s' : Ufs)
    : Type 0 where
  pub linked : Linked s'.files s'.file_list ((length s.files, some filename) ∷ dir)
  pub is_open :
      IsOpen s' s.file_descriptor_count
        (length s.filedescs)
        (record { file = length s.files; offset = 0; mode = mode_of flags })
        (record (new_file filename s.file_list) { refs = 1 })

-- On a well-formed list of files, `UFS_CREATE` for a name that no file has, with room in the array
-- of descriptors, succeeds: it returns the count of descriptors, puts a new empty file first in
-- the directory, and opens that number on it at offset 0, in the mode that the flags ask for.
pub ufs_open-Created :
    (filename : Text) (flags : OpenFlags) (s : Ufs) {dir : Directory}
    → Linked s.files s.file_list dir
    → flags.create ≡ true
    → lookup filename dir ≡ none
    → s.file_descriptor_count < length s.file_descriptors
    → Ensures
        (λ r s'. (r ≡ value s.file_descriptor_count) × Created s filename flags dir s')
        (λ _. ⊥)
        (ufs_open filename flags s)
unfolding ufs_open open_file
ufs_open-Created filename flags s l create missing room =
    rw (find_file_struct-lookup filename s l, create, missing)
      (bind (alloc_file_struct-Allocated filename s s.file_list refl l) λ a s1 al.
        let fresh = new_file filename s.file_list in
        let opened : File = record fresh { refs = 1 } in
        let stored =
          get_elem?-set_self s1.files a (some opened) (lt-of-get_elem? s1.files a al.new) in
        let fits : ltb s1.file_descriptor_count (length s1.file_descriptors) ≡ true =
          rw (al.count, al.table) (ground arith) in
        rw (al.new, fits)
          (returns (
            ap value al.count,
            record {
              linked =
                  rw (al.head, ← al.address)
                    (cons {f = opened} stored
                      (subst (λ t. Below s.file_list t) (sym al.address) (Linked-Below l))
                      (Linked-set a fresh opened al.linked al.new refl refl));
              is_open = record {
                slot =
                    (rw (al.count, al.table, al.filedescs)
                      (get_elem?-set_self s.file_descriptors s.file_descriptor_count _ room));
                desc = (rw (al.filedescs, al.address) (get_elem?-end s.filedescs _));
                file = (rw (← al.address) stored);
              };
            },
          )))
