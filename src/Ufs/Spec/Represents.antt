-- ===== src/Ufs/Spec/Represents.antt =====
-- When a state of userfs.c stands for a state of the specification.
use sysprog_solutions.Common.{
  ℕ, some, none, true, List, Option, get_elem?, Outcome, length, ◌⊎◌, ◌≡◌, ◌<◌, get_elem?-lt, ok,
  inl, ◌==◌, ==_self, inr, arith, ◌≤◌, if◌then◌else◌, le-total, set, ◌≢◌, subst, get_elem?-set,
  set-get_elem?, get_elem?-set_self, sym, get_elem?-set_ne, ◌++◌, ◌∷◌, [], ap, refl,
}
use sysprog_solutions.Ufs.State.{Ufs, pointer, File, Filedesc, Block, Trap, Message}
use sysprog_solutions.Ufs.Spec.{
  Spec, Handle, unwritten, freed, holds, users, Contents, Directory, ErrorCode, Message,
}
use sysprog_solutions.Ufs.Blocks.Contents.{contents}
use sysprog_solutions.Ufs.Files.Directory.{Directory, Linked, Linked-set}
use sysprog_solutions.Ufs.Calls.Writing.{IsOpen}
use sysprog_solutions.Ufs.Blocks.{total_occupied, last_part}

-- The blocks of a file that was written.
pub record Filled (bl : Option (List Block)) (bytes : List ℕ) : Type 0 where
  pub blocks : List Block
  pub at : bl ≡ some blocks
  pub holds : contents blocks ≡ bytes
  pub occupies : total_occupied blocks ≡ length bytes
  pub short : 0 < length bytes → length bytes < 8 → blocks ≡ last_part (length bytes) bytes ∷ []

-- The blocks of a file hold its contents.
abbrev pub Held : Option (List Block) → Contents → Type 0
Held bl unwritten = bl ≡ none
Held bl freed = ⊥
Held bl (holds bytes) = Filled bl bytes

-- A file with `n` descriptors.
pub record Live (o : Option (Option File)) (c : Contents) (n : ℕ) : Type 0 where
  pub file : File
  pub at : o ≡ some (some file)
  pub refs : file.refs ≡ n
  pub held : Held file.block_list c

abbrev pub FileIs : Option (Option File) → Contents → ℕ → Type 0
FileIs o c n = Live o c n ⊎ ((o ≡ some none) × (c ≡ freed) × (n ≡ 0))

-- Each file has the contents and the number of descriptors it should have.
abbrev pub FilesAre : List (Option File) → List Contents → (ℕ → ℕ) → Type 0
FilesAre files cs count =
    (k : ℕ) (c : Contents) → get_elem? cs k ≡ some c → FileIs (get_elem? files k) c (count k)

abbrev pub desc_of : Handle → Filedesc
desc_of h = record { file = h.file; offset = h.offset; mode = h.mode }

-- The descriptor of a handle.
pub record HandleIs (s : Ufs) (fdno : ℕ) (h : Handle) : Type 0 where
  pub place : ℕ
  pub slot : get_elem? s.file_descriptors fdno ≡ some (pointer place)
  pub desc : get_elem? s.filedescs place ≡ some (some (desc_of h))

abbrev pub Searchable : List (Option File) → Option ℕ → Option Directory → Type 0
Searchable files head none = Unit
Searchable files head (some dir) = Linked files head dir

-- The list of files is the directory, each descriptor number below the count has its own
-- descriptor, and the references of a file are the descriptors on it.
pub record Represents (s : Ufs) (a : Spec) : Type 0 where
  pub files : length s.files ≡ length a.contents
  pub file : FilesAre s.files a.contents (λ k. users k a.handles)
  pub directory : Searchable s.files s.file_list a.directory
  pub count : s.file_descriptor_count ≡ length a.handles
  pub room : length s.file_descriptors ≡ a.room
  pub handle : (i : ℕ) (h : Handle) → get_elem? a.handles i ≡ some h → HandleIs s i h
  pub inside : (i : ℕ) (h : Handle) → get_elem? a.handles i ≡ some h → h.file < length a.contents
  pub apart :
      (i j d : ℕ)
      → i < length a.handles
      → j < length a.handles
      → get_elem? s.file_descriptors i ≡ some (pointer d)
      → get_elem? s.file_descriptors j ≡ some (pointer d)
      → i ≡ j
  pub error : s.ufs_err_code ≡ a.error
  pub messages : s.stderr ≡ a.messages

pub Searchable-set :
    (files : List (Option File)) (head : Option ℕ) (dir : Option Directory) (k : ℕ) (f g : File)
    → Searchable files head dir
    → get_elem? files k ≡ some (some f)
    → g.name ≡ f.name
    → g.prev ≡ f.prev
    → Searchable (set files k (some g)) head dir
Searchable-set files head none k f g l at name prev = tt
Searchable-set files head (some dir) k f g l at name prev = Linked-set k f g l at name prev

-- A change of one file.
pub FilesAre-set :
    (files : List (Option File)) (cs : List Contents) (count count' : ℕ → ℕ) (k : ℕ)
    (v : Option File) (new : Contents)
    → FilesAre files cs count
    → k < length files
    → FileIs (some v) new (count' k)
    → ((j : ℕ) → k ≢ j → count' j ≡ count j)
    → FilesAre (set files k v) (set cs k new) count'
FilesAre-set files cs count count' k v new are lt is same j c e =
    elim (get_elem?-set cs k j new c e) [
      | inl (here, stored) ↦
          let at = get_elem?-set_self files k v lt in
          subst (λ i. FileIs (get_elem? (set files k v) i) c (count' i)) here
            (subst (λ x. FileIs x c (count' k)) (sym at)
              (subst (λ x. FileIs (some v) x (count' k)) (sym stored) is))
      | inr (apart, old) ↦
          subst (λ x. FileIs x c (count' j)) (sym (get_elem?-set_ne files k j v apart))
            (subst (FileIs (get_elem? files j) c) (sym (same j apart)) (are j c old))
    ]

-- A change of one file that keeps its contents.
pub FilesAre-set_same :
    (files : List (Option File)) (cs : List Contents) (count count' : ℕ → ℕ) (k : ℕ)
    (v : Option File) (c : Contents)
    → FilesAre files cs count
    → get_elem? cs k ≡ some c
    → k < length files
    → FileIs (some v) c (count' k)
    → ((j : ℕ) → k ≢ j → count' j ≡ count j)
    → FilesAre (set files k v) cs count'
FilesAre-set_same files cs count count' k v c are at lt is same =
    subst (λ x. FilesAre (set files k v) x count') (set-get_elem? cs k c at)
      (FilesAre-set files cs count count' k v c are lt is same)

-- The file of a handle is live, and open at its number.
pub record Opened (s : Ufs) (a : Spec) (fdno : ℕ) (h : Handle) : Type 0 where
  pub place : ℕ
  pub file : File
  pub contents : Contents
  pub is_open : IsOpen s fdno place (desc_of h) file
  pub at : get_elem? a.contents h.file ≡ some contents
  pub refs : file.refs ≡ users h.file a.handles
  pub some_users : 0 < users h.file a.handles
  pub held : Held file.block_list contents

le-users : (hs : List Handle) (i : ℕ) (h : Handle) → get_elem? hs i ≡ some h → 0 < users h.file hs
unfolding users
le-users hs i h e =
    let own : (h.file == h.file) ≡ true = ==_self h.file in
    let weight : 1 ≤ (if h.file == h.file then 1 else 0) = rw own (omega arith) in
    omega (arith, weight, le-total (λ g. if g.file == h.file then 1 else 0) hs i e)

pub Represents-Opened :
    {s : Ufs} {a : Spec} (fdno : ℕ) (h : Handle)
    → Represents s a
    → get_elem? a.handles fdno ≡ some h
    → Opened s a fdno h
Represents-Opened {s} {a} fdno h r e =
    let is = r.handle fdno h e in
    let some_users = le-users a.handles fdno h e in
    let (c, at) = get_elem?-lt a.contents h.file (r.inside fdno h e) in
    elim (r.file h.file c at) [
      | inl live ↦ record {
        place = is.place;
        file = live.file;
        contents = c;
        is_open = record { slot = is.slot; desc = is.desc; file = live.at };
        at = at;
        refs = live.refs;
        some_users = some_users;
        held = live.held;
      }
      | inr (_, _, none_left) ↦ absurd (omega arith)
    ]

-- A call that fails changes the error and the messages alone.
pub refused-Represents :
    {s : Ufs} {a : Spec} (e : ErrorCode) (m : Message)
    → Represents s a
    → Represents
        (record s { ufs_err_code = e; stderr = s.stderr ++ (m ∷ []) })
        (record a { error = e; messages = a.messages ++ (m ∷ []) })
refused-Represents e m r = record {
  files = r.files;
  file = r.file;
  directory = r.directory;
  count = r.count;
  room = r.room;
  handle = λ i h at.
      let is = r.handle i h at in record { place = is.place; slot = is.slot; desc = is.desc };
  inside = r.inside;
  apart = r.apart;
  error = refl;
  messages = ap (λ x. x ++ (m ∷ [])) r.messages;
}

-- The outcome of a call that the specification allows.
abbrev pub Simulates : {A : Type 0} → Outcome Trap (A × Ufs) → Option (A × Spec) → Type 0
Simulates o none = Unit
Simulates o (some (r, a)) = (s : Ufs) × (o ≡ ok (r, s)) × Represents s a
