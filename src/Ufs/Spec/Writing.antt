-- ===== src/Ufs/Spec/Writing.antt =====
-- `ufs_write` and `file_size` keep their promise.
use sysprog_solutions.Common.{
  ℕ, [], ◌∷◌, some, List, inl, inr, get_elem?, ◌≡◌, set, total-set, length, if◌then◌else◌, ◌==◌,
  get_elem?-set_self, ap, lt-of-get_elem?, arith, refl, length-set, total, ◌+◌, ◌∙◌, sym, subst,
  get_elem?-set, get_elem?-set_ne, ◌<◌, ◌++◌, Option-cases, Bool-cases, ltb, ◌&&◌, leb, ◌≤◌, take,
  length-take, ok, none, ◌%◌, ◌-◌, replicate, take-length,
}
use sysprog_solutions.Ufs.State.{
  pointer, Ufs, Block, print_err_msg, max_file_size, no_permission, no_permission_message,
}
use sysprog_solutions.Ufs.Spec.{
  Spec, Handle, holds, users, write_handle, max_file_size, no_permission, no_permission_message,
  spec_write, spec_size, Contents, length_of, unwritten, freed,
}
use sysprog_solutions.Ufs.Spec.Represents.{
  Filled, Represents, Opened, Simulates, desc_of, Held, Searchable-set, Represents-Opened,
  FilesAre-set, refused-Represents,
}
use sysprog_solutions.Ufs.Blocks.Contents.{
  contents, allocate_block-kept, kept, kept-le, allocate_block_short,
}
use sysprog_solutions.Ufs.Blocks.{total_occupied, allocate_block, last_part}
use sysprog_solutions.Ufs.Calls.Writing.{written, ufs_write-blocks}
use sysprog_solutions.Ufs.Calls.{ufs_write, fail, may_write, file_size}

abbrev pub on_file : ℕ → Handle → ℕ
on_file k h = if h.file == k then 1 else 0

users-set :
    (k i : ℕ) (hs : List Handle) (h g : Handle)
    → get_elem? hs i ≡ some h
    → g.file ≡ h.file
    → users k (set hs i g) ≡ users k hs
unfolding users
users-set k i hs h g e same =
    let sum : total (on_file k) (set hs i g) + on_file k h ≡ total (on_file k) hs + on_file k g =
      total-set (on_file k) hs i h g e in
    let weight : on_file k g ≡ on_file k h = ap (λ (x : ℕ). if x == k then 1 else 0) same in
    omega (arith, sum, weight)

module _ {s : Ufs} {a : Spec} (r : Represents s a) (fdno : ℕ) (h : Handle)
    (e : get_elem? a.handles fdno ≡ some h) where
  -- The specification behind a write that leaves `bytes`, and the offset `n`.
  abbrev rewritten : List ℕ → ℕ → Spec
  rewritten bytes n = record a {
    contents = set a.contents h.file (holds bytes);
    handles = set a.handles fdno (record h { offset = n });
  }

  written-Represents :
      (blocks : List Block) (bytes : List ℕ) (n : ℕ)
      → Filled (some blocks) bytes
      → (o : Opened s a fdno h)
      → Represents (written s o.place (desc_of h) o.file blocks n) (rewritten bytes n)
  written-Represents blocks bytes n filled o =
      let moved : Handle = record h { offset = n } in
      let same = λ (k : ℕ). users-set k fdno a.handles h moved e refl in
      record {
        files =
            length-set s.files h.file _
            ∙ r.files
            ∙ sym (length-set a.contents h.file (holds bytes));
        file =
            FilesAre-set s.files a.contents (λ k. users k a.handles)
              (λ k. users k (set a.handles fdno moved)) h.file
              (some (record o.file { block_list = some blocks })) (holds bytes) r.file
              (lt-of-get_elem? s.files h.file o.is_open.file)
              (inl (record {
                file = record o.file { block_list = some blocks };
                at = refl;
                refs = o.refs ∙ sym (same h.file);
                held = filled;
              }))
              (λ k apart. same k);
        directory =
            Searchable-set s.files s.file_list a.directory h.file o.file
              (record o.file { block_list = some blocks }) r.directory o.is_open.file refl refl;
        count = r.count ∙ sym (length-set a.handles fdno moved);
        room = r.room;
        handle = λ i g at. elim (get_elem?-set a.handles fdno i moved g at) [
          | inl (here, same_handle) ↦ record {
            place = o.place;
            slot =
                subst (λ j. get_elem? s.file_descriptors j ≡ some (pointer o.place)) here
                  o.is_open.slot;
            desc =
                get_elem?-set_self s.filedescs o.place _
                  (lt-of-get_elem? s.filedescs o.place o.is_open.desc)
                ∙ ap (λ x. some (some (desc_of x))) (sym same_handle);
          }
          | inr (other, old) ↦
              let is = r.handle i g old in
              record {
                place = is.place;
                slot = is.slot;
                desc =
                    get_elem?-set_ne s.filedescs o.place is.place _ (λ x. other (
                      r.apart fdno i o.place (lt-of-get_elem? a.handles fdno e)
                        (lt-of-get_elem? a.handles i old) o.is_open.slot
                        (is.slot ∙ ap (λ d. some (pointer d)) (sym x))))
                    ∙ is.desc;
              }
        ];
        inside = λ i g at.
            subst (λ n. g.file < n) (sym (length-set a.contents h.file (holds bytes)))
              (elim (get_elem?-set a.handles fdno i moved g at) [
                | inl (here, same_handle) ↦
                    subst (λ (x : Handle). x.file < length a.contents) (sym same_handle)
                      (r.inside fdno h e)
                | inr (other, old) ↦ r.inside i g old
              ]);
        apart = λ i j d li lj.
            let n = length-set a.handles fdno moved in
            r.apart i j d (subst (λ x. i < x) n li) (subst (λ x. j < x) n lj);
        error = r.error;
        messages = r.messages;
      }

kept_few : (size : ℕ) → 0 < kept size → kept size < 8 → (kept size ≡ size) × (size < 8)
unfolding kept
kept_few size pos few = elim (Bool-cases ((size % 8) == 0)) [
  | inl whole ↦
      let pos' : 0 < size - 8 = rw whole at pos in
      let few' : size - 8 < 8 = rw whole at few in absurd (ground arith)
  | inr part ↦ rw part (refl, rw part at few)
]

-- The blocks of a short write are one block.
allocate_block-Filled :
    (buf : List ℕ) (size : ℕ) {blocks : List Block}
    → 0 < size
    → size ≤ length buf
    → allocate_block buf size ≡ ok (blocks, kept size)
    → contents blocks ≡ take (kept size) buf
    → total_occupied blocks ≡ kept size
    → Filled (some blocks) (take (kept size) buf)
allocate_block-Filled buf size {blocks} pos enough alloc holding size' =
    let bytes = take (kept size) buf in
    let long : length bytes ≡ kept size =
      length-take (kept size) buf (omega (arith, kept-le size)) in
    record {
      blocks = blocks;
      at = refl;
      holds = holding;
      occupies = size' ∙ sym long;
      short = λ some_bytes few.
          let (all, small) = kept_few size (omega arith) (omega arith) in
          let one = allocate_block_short buf size pos small enough in
          let same : blocks ≡ last_part size buf ∷ [] = cc in
          same
          ∙ ap (λ n. last_part n buf ∷ []) (sym all ∙ sym long)
          ∙ ap
              (λ (t : List ℕ).
                (record { memory = t ++ replicate (8 - length bytes) 0; occupied = length bytes })
                ∷ [])
              (ap (λ k. take k buf) long ∙ sym (take-length bytes));
    }

-- In a state that stands for one of the specification, `ufs_write` on an open descriptor does what
-- the specification says.
write_open-Simulates :
    {s : Ufs} {a : Spec} (fdno : ℕ) (buf : List ℕ) (size : ℕ) (h : Handle)
    → Represents s a
    → get_elem? a.handles fdno ≡ some h
    → Simulates (ufs_write fdno buf size s) (write_handle (some h) fdno buf size a)
unfolding ufs_write fail print_err_msg
write_open-Simulates {s} {a} fdno buf size h r e =
    let o = Represents-Opened fdno h r e in
    elim (Option-cases h.mode) [
      | inl unset ↦ rw unset tt
      | inr (mode, set_to) ↦ elim (Bool-cases (may_write mode)) [
        | inl may ↦
            elim (Bool-cases ((ltb 0 size && leb size max_file_size) && leb size (length buf))) [
              | inl fits ↦
                  let pos : 0 < size = ground arith in
                  let small : size ≤ max_file_size = ground arith in
                  let enough : size ≤ length buf = ground arith in
                  let (blocks, alloc, filled) = allocate_block-kept buf size pos enough in
                  rw (set_to, may, fits)
                    (
                      written s o.place (desc_of h) o.file blocks (kept size),
                      ufs_write-blocks o.is_open mode buf size set_to may small alloc,
                      written-Represents r fdno h e blocks (take (kept size) buf) (kept size)
                          (allocate_block-Filled buf size pos enough alloc filled.holds
                            filled.occupies)
                          o,
                    )
              | inr wrong ↦ rw (set_to, may, wrong) tt
            ]
        | inr never ↦
            rw (set_to, never)
              (
                record s {
                  ufs_err_code = no_permission;
                  stderr = s.stderr ++ (no_permission_message ∷ []);
                },
                rw (o.is_open.slot, o.is_open.desc, set_to, never) refl,
                refused-Represents no_permission no_permission_message r,
              )
      ]
    ]

pub ufs_write-Simulates :
    {s : Ufs} {a : Spec} (fdno : ℕ) (buf : List ℕ) (size : ℕ)
    → Represents s a
    → Simulates (ufs_write fdno buf size s) (spec_write fdno buf size a)
unfolding spec_write
ufs_write-Simulates {s} {a} fdno buf size r = elim (Option-cases (get_elem? a.handles fdno)) [
  | inl missing ↦ rw missing tt
  | inr (h, e) ↦ rw e (write_open-Simulates fdno buf size h r e)
]

-- The size of a live file.
held_size :
    {s : Ufs} {a : Spec} (fdno n : ℕ) (h : Handle) (c : Contents)
    → Represents s a
    → get_elem? a.handles fdno ≡ some h
    → get_elem? a.contents h.file ≡ some c
    → length_of (some c) ≡ some n
    → file_size fdno s ≡ ok (n, s)
unfolding file_size
held_size fdno n h unwritten r e at size = cc
held_size fdno n h freed r e at size = cc
held_size {s} {a} fdno n h (holds bytes) r e at size =
    let o = Represents-Opened fdno h r e in
    let same : o.contents ≡ holds bytes = cc in
    let filled = subst (Held o.file.block_list) same o.held in
    let long : length bytes ≡ n = cc in
    rw (o.is_open.slot, o.is_open.desc, o.is_open.file, filled.at)
      (ap (λ k. ok (k, s)) (filled.occupies ∙ long))

pub file_size-Simulates :
    {s : Ufs} {a : Spec} (fdno n : ℕ)
    → Represents s a
    → spec_size fdno a ≡ some n
    → file_size fdno s ≡ ok (n, s)
unfolding spec_size
file_size-Simulates {s} {a} fdno n r size = elim (Option-cases (get_elem? a.handles fdno)) [
  | inl missing ↦ let z : none ≡ some n = rw missing at size in cc
  | inr (h, e) ↦ elim (Option-cases (get_elem? a.contents h.file)) [
    | inl lost ↦ let z : none ≡ some n = rw (e, lost) at size in cc
    | inr (c, at) ↦ held_size fdno n h c r e at (rw (e, at) at size)
  ]
]
