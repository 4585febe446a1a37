-- ===== src/Ufs/Spec/Creating.antt =====
-- `ufs_open` keeps its promise.
use sysprog_solutions.Common.{
  ℕ, zero, suc, [], ◌∷◌, some, none, true, false, List, Option, inl, inr, get_elem?, ◌≡◌, ok,
  Bool-cases, total, subst, sym, length, ltb, ◌<◌, ◌++◌, ◌==◌, arith, ◌∙◌, refl, length-append,
  get_elem?-snoc_cases, ap, Option-cases, ensured,
}
use sysprog_solutions.Ufs.State.{
  value, Ufs, Text, File, OpenFlags, no_file, no_file_message, no_permission, no_permission_message,
}
use sysprog_solutions.Ufs.Spec.{
  Spec, Handle, unwritten, users, Contents, handle_on, add_handle, Directory, spec_open, open_in,
  share_handle, create_named, open_as,
}
use sysprog_solutions.Ufs.Spec.Represents.{
  Represents, Simulates, refused-Represents, FileIs, Held, Searchable, Represents-Opened,
}
use sysprog_solutions.Ufs.Spec.Opening.{
  with_descriptor, with_descriptor-Represents, open_file-descriptor,
}
use sysprog_solutions.Ufs.Spec.Reopening.{handle_on-at, find_filedesc-handle_on}
use sysprog_solutions.Ufs.Calls.{ufs_open, open_file, mode_of}
use sysprog_solutions.Ufs.Calls.Opening.{
  Allocated, alloc_file_struct-Allocated, ufs_open_missing, ufs_open_existing, Renext,
}
use sysprog_solutions.Ufs.Files.{new_file}
use sysprog_solutions.Ufs.Spec.Writing.{on_file}
use sysprog_solutions.Ufs.Files.Directory.{
  Directory, some-some-injective, Linked, lookup, cons, Below, Linked-Below,
  find_file_struct-lookup,
}

add_handle-Simulates :
    {s : Ufs} {a : Spec} (r : Represents s a) (k offset : ℕ) (flags : OpenFlags) (f : File)
    → get_elem? s.files k ≡ some (some f)
    → Simulates
        (open_file k offset flags s)
        (add_handle (record { file = k; offset = offset; mode = mode_of flags }) a)
add_handle-Simulates {s} {a} r k offset flags f at =
    let h : Handle = record { file = k; offset = offset; mode = mode_of flags } in
    elim (Bool-cases (ltb (length a.handles) a.room)) [
      | inr full ↦ rw full tt
      | inl fits ↦
          let room : length a.handles < a.room = ground arith in
          rw fits (
            with_descriptor s k f h,
            open_file-descriptor s k offset flags f at (omega (arith, r.count, r.room))
                ∙ ap (λ n. ok (value n, with_descriptor s k f h)) r.count,
            with_descriptor-Represents r h f at room,
          )
    ]

Renext-FileIs :
    {o o' : Option (Option File)} {c : Contents} {n : ℕ}
    → Renext o o'
    → FileIs o c n
    → FileIs o' c n
Renext-FileIs {c} {n} (inl same) is = subst (λ x. FileIs x c n) (sym same) is
Renext-FileIs {c} (inr (f, next, before, after)) (inl live) =
    let same : live.file ≡ f = some-some-injective (sym live.at ∙ before) in
    inl (record {
      file = record f { next = next };
      at = after;
      refs = ap (λ (x : File). x.refs) (sym same) ∙ live.refs;
      held = subst (λ (x : File). Held x.block_list c) same live.held;
    })
Renext-FileIs (inr (f, next, before, after)) (inr (gone, _, _)) = cc

users_none :
    (hs : List Handle) (k : ℕ)
    → ((i : ℕ) (h : Handle) → get_elem? hs i ≡ some h → h.file < k)
    → users k hs ≡ 0
unfolding users total
users_none [] k below = refl
users_none (h ∷ hs) k below =
    let lt = below zero h refl in
    let apart : (h.file == k) ≡ false = ground arith in
    let weight : on_file k h ≡ 0 = rw apart refl in
    let rest : total (on_file k) hs ≡ 0 = users_none hs k (λ i g e. below (suc i) g e) in
    omega (arith, weight, rest)

Allocated-Represents :
    {s s' : Ufs} {a : Spec} (filename : Text) (dir : Directory) (k : ℕ)
    → Represents s a
    → Linked s.files s.file_list dir
    → Allocated s filename dir k s'
    → Represents s' (record a {
      directory = some ((length a.contents, some filename) ∷ dir);
      contents = a.contents ++ (unwritten ∷ []);
    })
Allocated-Represents {s} {s'} {a} filename dir k r l al = record {
  files = omega (arith, al.size, r.files, length-append a.contents (unwritten ∷ []));
  file = λ j c e. elim (get_elem?-snoc_cases a.contents unwritten c j e) [
    | inl (end, new) ↦
        let here : k ≡ j = al.address ∙ r.files ∙ sym end in
        inl (record {
          file = new_file filename s.file_list;
          at = ap (get_elem? s'.files) (sym here) ∙ al.new;
          refs = sym (users_none a.handles j (λ i h at. omega (arith, end, r.inside i h at)));
          held = subst (Held none) (sym new) refl;
        })
    | inr (lt, old) ↦ Renext-FileIs (al.others j (omega (arith, r.files))) (r.file j c old)
  ];
  directory =
      subst (λ o. Linked s'.files o ((length a.contents, some filename) ∷ dir)) (sym al.head)
        (subst (λ j. Linked s'.files (some k) ((j, some filename) ∷ dir)) (al.address ∙ r.files)
          (cons {f = new_file filename s.file_list} al.new
            (subst (Below s.file_list) (sym al.address) (Linked-Below l)) al.linked));
  count = al.count ∙ r.count;
  room = ap length al.table ∙ r.room;
  handle = λ i h e.
      let is = r.handle i h e in
      record {
        place = is.place;
        slot = ap (λ t. get_elem? t i) al.table ∙ is.slot;
        desc = ap (λ t. get_elem? t is.place) al.filedescs ∙ is.desc;
      };
  inside = λ i h e. omega (arith, r.inside i h e, length-append a.contents (unwritten ∷ []));
  apart = λ i j d li lj ei ej.
      r.apart i j d li lj (ap (λ t. get_elem? t i) (sym al.table) ∙ ei)
        (ap (λ t. get_elem? t j) (sym al.table) ∙ ej);
  error = al.errno ∙ r.error;
  messages = al.stderr ∙ r.messages;
}

create_open-Simulates :
    {s : Ufs} {a : Spec} (filename : Text) (flags : OpenFlags) (dir : Directory)
    → Represents s a
    → Linked s.files s.file_list dir
    → flags.create ≡ true
    → lookup filename dir ≡ none
    → Simulates (ufs_open filename flags s) (create_named none filename flags dir a)
unfolding ufs_open
create_open-Simulates {s} {a} filename flags dir r l create missing =
    let (k, s1, made, al) = ensured (alloc_file_struct-Allocated filename s s.file_list refl l) in
    let r1 = Allocated-Represents filename dir k r l al in
    let ends : Simulates (open_file k 0 (record flags { create = false }) s1)
        (create_named none filename flags dir a) =
      subst
        (λ j. Simulates (open_file k 0 (record flags { create = false }) s1) (
          add_handle (record { file = j; offset = 0; mode = mode_of flags })
            (record a {
              directory = some ((length a.contents, some filename) ∷ dir);
              contents = a.contents ++ (unwritten ∷ []);
            })))
        (al.address ∙ r.files)
        (add_handle-Simulates r1 k 0 (record flags { create = false })
          (new_file filename s.file_list) al.new) in
    rw (find_file_struct-lookup filename s l, create, missing, made) ends

reopen-Simulates :
    {s : Ufs} {a : Spec} (filename : Text) (flags : OpenFlags) (dir : Directory) (k : ℕ)
    → Represents s a
    → Linked s.files s.file_list dir
    → flags.create ≡ false
    → lookup filename dir ≡ some k
    → Simulates (ufs_open filename flags s) (share_handle (handle_on k a.handles) flags a)
unfolding ufs_open open_file
reopen-Simulates {s} {a} filename flags dir k r l create there =
    elim (Option-cases (handle_on k a.handles)) [
      | inl unused ↦ rw unused tt
      | inr (h, on) ↦
          let (d, found, desc) = find_filedesc-handle_on k h r on in
          let (same, i, at) = handle_on-at k a.handles h on in
          let o = Represents-Opened i h r at in
          let file : get_elem? s.files k ≡ some (some o.file) =
            ap (get_elem? s.files) (sym same) ∙ o.is_open.file in
          rw (on, find_file_struct-lookup filename s l, create, there, found, desc, same)
            (add_handle-Simulates r k h.offset flags o.file file)
    ]

open_named-Simulates :
    {s : Ufs} {a : Spec} (filename : Text) (flags : OpenFlags) (dir : Directory)
    → Represents s a
    → Linked s.files s.file_list dir
    → Simulates (ufs_open filename flags s) (open_in (some dir) filename flags a)
open_named-Simulates {s} {a} filename flags dir r l =
    let o = lookup filename dir in
    elim (Bool-cases flags.create) [
      | inl create ↦
          subst (λ c. Simulates (ufs_open filename flags s) (open_as c o filename flags dir a))
            (sym create)
            (elim (Option-cases o) [
              | inl missing ↦
                  rw missing (create_open-Simulates filename flags dir r l create missing)
              | inr (k, there) ↦ rw there (
                record s {
                  ufs_err_code = no_permission;
                  stderr = s.stderr ++ (no_permission_message ∷ []);
                },
                ufs_open_existing filename flags s k l create there,
                refused-Represents no_permission no_permission_message r,
              )
            ])
      | inr old ↦
          subst (λ c. Simulates (ufs_open filename flags s) (open_as c o filename flags dir a))
            (sym old)
            (elim (Option-cases o) [
              | inl missing ↦ rw missing (
                record s { ufs_err_code = no_file; stderr = s.stderr ++ (no_file_message ∷ []) },
                ufs_open_missing filename flags s l old missing,
                refused-Represents no_file no_file_message r,
              )
              | inr (k, there) ↦ rw there (reopen-Simulates filename flags dir k r l old there)
            ])
    ]

pub ufs_open-Simulates :
    {s : Ufs} {a : Spec} (filename : Text) (flags : OpenFlags)
    → Represents s a
    → Simulates (ufs_open filename flags s) (spec_open filename flags a)
unfolding spec_open
ufs_open-Simulates {s} {a} filename flags r = elim (Option-cases a.directory) [
  | inl unknown ↦
      subst (λ d. Simulates (ufs_open filename flags s) (open_in d filename flags a)) (sym unknown)
        tt
  | inr (dir, known) ↦
      let l = subst (Searchable s.files s.file_list) known r.directory in
      subst (λ d. Simulates (ufs_open filename flags s) (open_in d filename flags a)) (sym known)
        (open_named-Simulates filename flags dir r l)
]
