-- ===== src/Ufs/Spec/Opening.antt =====
-- The end of `ufs_open`: one more descriptor on a file.
use sysprog_solutions.Common.{
  ℕ, [], ◌∷◌, some, true, false, List, inl, inr, get_elem?, ◌≡◌, set, ok, total, ◌+◌, ◌<◌, length,
  ◌++◌, ltb, ◌≢◌, ◌==◌, lt-of-get_elem?, arith, get_elem?-lt, ==_self, get_elem?-snoc_cases,
  total-append, refl, ==_ne, ◌∙◌, subst, ap, sym, get_elem?-set_self, get_elem?-end,
  get_elem?-set_ne, get_elem?-append, length-set, ◌⊎◌, get_elem?-set, length-append,
}
use sysprog_solutions.Ufs.State.{value, pointer, Ufs, File, OpenFlags}
use sysprog_solutions.Ufs.Spec.{Spec, Handle, users}
use sysprog_solutions.Ufs.Spec.Represents.{
  Represents, FilesAre, FilesAre-set_same, HandleIs, desc_of, FileIs, Held, Searchable-set,
}
use sysprog_solutions.Ufs.Spec.Writing.{on_file}
use sysprog_solutions.Ufs.Calls.{open_file, mode_of}
use sysprog_solutions.Ufs.Files.Directory.{some-some-injective}
use native.Mathlib.Decide.{dec_lt}

-- The state with a new descriptor on the file `f` at `k`.
abbrev pub with_descriptor : Ufs → ℕ → File → Handle → Ufs
with_descriptor s k f h = record s {
  files = set s.files k (some (record f { refs = f.refs + 1 }));
  filedescs = s.filedescs ++ (some (desc_of h) ∷ []);
  file_descriptors = set s.file_descriptors s.file_descriptor_count (pointer (length s.filedescs));
  file_descriptor_count = s.file_descriptor_count + 1;
}

pub open_file-descriptor :
    (s : Ufs) (k offset : ℕ) (flags : OpenFlags) (f : File)
    → get_elem? s.files k ≡ some (some f)
    → s.file_descriptor_count < length s.file_descriptors
    → open_file k offset flags s
      ≡ ok (
        value s.file_descriptor_count,
        with_descriptor s k f (record { file = k; offset = offset; mode = mode_of flags }),
      )
unfolding open_file
open_file-descriptor s k offset flags f at lt =
    let fits : ltb s.file_descriptor_count (length s.file_descriptors) ≡ true = ground arith in
    rw (at, fits) refl

users-snoc :
    (k : ℕ) (hs : List Handle) (h : Handle) → users k (hs ++ (h ∷ [])) ≡ users k hs + on_file k h
unfolding users total
users-snoc k hs h = total-append (on_file k) hs (h ∷ []) ∙ omega arith

module _ {s : Ufs} {a : Spec} (r : Represents s a) (h : Handle) (f : File)
    (at : get_elem? s.files h.file ≡ some (some f)) (room : length a.handles < a.room) where
  abbrev more : List Handle
  more = a.handles ++ (h ∷ [])

  free : s.file_descriptor_count < length s.file_descriptors
  free = omega (arith, r.count, r.room)

  users_new_self : users h.file more ≡ users h.file a.handles + 1
  users_new_self =
      let on : (h.file == h.file) ≡ true = ==_self h.file in
      let weight : on_file h.file h ≡ 1 = rw on refl in
      omega (arith, users-snoc h.file a.handles h, weight)

  users_new_other : (k : ℕ) → h.file ≢ k → users k more ≡ users k a.handles
  users_new_other k apart =
      let off : (h.file == k) ≡ false = ==_ne h.file k apart in
      let weight : on_file k h ≡ 0 = rw off refl in omega (arith, users-snoc k a.handles h, weight)

  with_descriptor-files :
      FilesAre
        (set s.files h.file (some (record f { refs = f.refs + 1 })))
        a.contents
        (λ k. users k more)
  with_descriptor-files =
      let lt = lt-of-get_elem? s.files h.file at in
      let (c, there) = get_elem?-lt a.contents h.file (subst (λ n. h.file < n) r.files lt) in
      let opened : File = record f { refs = f.refs + 1 } in
      let is : FileIs (some (some opened)) c (users h.file more) = elim (r.file h.file c there) [
        | inl live ↦
            let same : live.file ≡ f = some-some-injective (sym live.at ∙ at) in
            let refs : live.file.refs ≡ f.refs = ap (λ (x : File). x.refs) same in
            inl (record {
              file = opened;
              at = refl;
              refs = omega (arith, refs, live.refs, users_new_self);
              held = subst (λ (x : File). Held x.block_list c) same live.held;
            })
        | inr (gone, _, _) ↦ cc
      ] in
      FilesAre-set_same s.files a.contents (λ k. users k a.handles) (λ k. users k more) h.file
        (some opened) c r.file there lt is users_new_other

  with_descriptor-handle :
      (i : ℕ) (g : Handle) → get_elem? more i ≡ some g → HandleIs (with_descriptor s h.file f h) i g
  with_descriptor-handle i g e = elim (get_elem?-snoc_cases a.handles h g i e) [
    | inl (end, new) ↦ record {
      place = length s.filedescs;
      slot =
          ap
            (get_elem?
              (set s.file_descriptors s.file_descriptor_count (pointer (length s.filedescs))))
            (end ∙ sym r.count)
          ∙ get_elem?-set_self s.file_descriptors s.file_descriptor_count _ free;
      desc = get_elem?-end s.filedescs _ ∙ ap (λ x. some (some (desc_of x))) (sym new);
    }
    | inr (lt, old) ↦
        let is = r.handle i g old in
        record {
          place = is.place;
          slot =
              get_elem?-set_ne s.file_descriptors s.file_descriptor_count i _
                (λ x. absurd (omega (arith, r.count)))
              ∙ is.slot;
          desc = get_elem?-append s.filedescs _ is.place is.desc;
        }
  ]

  slot-cases :
      (i d : ℕ)
      → i < length more
      → get_elem? (set s.file_descriptors s.file_descriptor_count (pointer (length s.filedescs))) i
        ≡ some (pointer d)
      → ((i ≡ length a.handles) × (d ≡ length s.filedescs))
        ⊎ ((i < length a.handles)
            × (get_elem? s.file_descriptors i ≡ some (pointer d))
            × (d < length s.filedescs))
  slot-cases i d lt e =
      elim (get_elem?-set s.file_descriptors s.file_descriptor_count i
        (pointer (length s.filedescs)) (pointer d) e) [
          | inl (here, new) ↦
              let same : d ≡ length s.filedescs = cc in inl (sym here ∙ r.count, same)
          | inr (other, old) ↦
              let below : i < length a.handles = elim (dec_lt i (length a.handles)) [
                | yes l ↦ l
                | no n ↦ absurd (other (omega (arith, r.count, length-append a.handles (h ∷ []))))
              ] in
              let (g, there) = get_elem?-lt a.handles i below in
              let is = r.handle i g there in
              let same : is.place ≡ d =
                let x : some (pointer is.place) ≡ some (pointer d) = sym is.slot ∙ old in cc in
              inr (below, old, omega (arith, same, lt-of-get_elem? s.filedescs is.place is.desc))
        ]

  pub with_descriptor-Represents :
      Represents (with_descriptor s h.file f h) (record a { handles = more })
  with_descriptor-Represents = record {
    files = length-set s.files h.file _ ∙ r.files;
    file = with_descriptor-files;
    directory =
        Searchable-set s.files s.file_list a.directory h.file f (record f { refs = f.refs + 1 })
          r.directory at refl refl;
    count = omega (arith, r.count, length-append a.handles (h ∷ []));
    room = length-set s.file_descriptors s.file_descriptor_count _ ∙ r.room;
    handle = with_descriptor-handle;
    inside = λ i g e. elim (get_elem?-snoc_cases a.handles h g i e) [
      | inl (_, new) ↦
          subst (λ (x : Handle). x.file < length a.contents) (sym new)
            (subst (λ n. h.file < n) r.files (lt-of-get_elem? s.files h.file at))
      | inr (_, old) ↦ r.inside i g old
    ];
    apart = λ i j d li lj ei ej. elim (slot-cases i d li ei) [
      | inl (i_new, d_new) ↦ elim (slot-cases j d lj ej) [
        | inl (j_new, _) ↦ omega arith
        | inr (_, _, lt) ↦ absurd (omega arith)
      ]
      | inr (li', ei', d_old) ↦ elim (slot-cases j d lj ej) [
        | inl (_, d_new) ↦ absurd (omega arith)
        | inr (lj', ej', _) ↦ r.apart i j d li' lj' ei' ej'
      ]
    ];
    error = r.error;
    messages = r.messages;
  }
