-- ===== src/Ufs/Spec/Closing.antt =====
-- `ufs_close` of the last descriptor number keeps its promise.
use sysprog_solutions.Common.{
  ℕ, [], ◌∷◌, some, none, true, false, List, Option, inl, inr, get_elem?, ◌≡◌, set, ◌+◌, length, ap,
  take, ◌≢◌, ◌==◌, length-take, total, ◌<◌, take_last, arith, ==_self, ==_ne, length-set, ◌∙◌, ◌-◌,
  refl, lt-of-get_elem?, sym, get_elem?-append, total-append, subst, get_elem?-set_ne, Bool-cases,
  ltb, get_elem?-lt,
}
use sysprog_solutions.Ufs.State.{pointer, Ufs, File}
use sysprog_solutions.Ufs.Spec.{
  Spec, Handle, freed, users, Contents, Directory, spec_close, drop_handle, holds, unwritten,
}
use sysprog_solutions.Ufs.Spec.Represents.{
  Represents, FilesAre, FilesAre-set, FilesAre-set_same, Opened, desc_of, Searchable,
  Searchable-set, Simulates, Represents-Opened, Held,
}
use sysprog_solutions.Ufs.Spec.Writing.{on_file}
use sysprog_solutions.Ufs.Calls.Closing.{closed, ufs_close_shared, ufs_close_last}
use sysprog_solutions.Ufs.Files.Directory.{Directory}
use sysprog_solutions.Ufs.Calls.{ufs_close}
use native.Mathlib.Decide.{dec_lt}

module _ {s : Ufs} {a : Spec} (r : Represents s a) (fdno : ℕ) (h : Handle)
    (e : get_elem? a.handles fdno ≡ some h) (last : fdno + 1 ≡ length a.handles) where
  abbrev others : List Handle
  others = take fdno a.handles

  length-others : length others ≡ fdno
  length-others = length-take fdno a.handles (omega arith)

  users-others : (k : ℕ) → users k a.handles ≡ users k others + on_file k h
  unfolding users total
  users-others k =
      ap (total (on_file k)) (take_last a.handles fdno h e last)
      ∙ total-append (on_file k) others (h ∷ [])
      ∙ omega arith

  users_other : (k : ℕ) → h.file ≢ k → users k others ≡ users k a.handles
  users_other k apart =
      let off : (h.file == k) ≡ false = ==_ne h.file k apart in
      let weight : on_file k h ≡ 0 = rw off refl in omega (arith, users-others k, weight)

  users_self : users h.file a.handles ≡ users h.file others + 1
  users_self =
      let on : (h.file == h.file) ≡ true = ==_self h.file in
      let weight : on_file h.file h ≡ 1 = rw on refl in omega (arith, users-others h.file, weight)

  get_elem?-others :
      (i : ℕ) (g : Handle) → get_elem? others i ≡ some g → get_elem? a.handles i ≡ some g
  get_elem?-others i g at =
      ap (λ xs. get_elem? xs i) (take_last a.handles fdno h e last)
      ∙ get_elem?-append others (h ∷ []) i at

  closed-Represents :
      (o : Opened s a fdno h) (f : Option File) (dir : Option Directory) (cs : List Contents)
      → length cs ≡ length a.contents
      → FilesAre (set s.files h.file f) cs (λ k. users k others)
      → Searchable (set s.files h.file f) s.file_list dir
      → Represents
          (closed s o.place (desc_of h) f)
          (record a { directory = dir; contents = cs; handles = others })
  closed-Represents o f dir cs size are linked = record {
    files = length-set s.files h.file f ∙ r.files ∙ sym size;
    file = are;
    directory = linked;
    count = omega (arith, r.count, last, length-others);
    room = r.room;
    handle = λ i g at.
        let old = get_elem?-others i g at in
        let is = r.handle i g old in
        let lt : i < fdno = subst (λ n. i < n) length-others (lt-of-get_elem? others i at) in
        record {
          place = is.place;
          slot = is.slot;
          desc =
              get_elem?-set_ne s.filedescs o.place is.place none (λ x.
                let same : fdno ≡ i =
                  r.apart fdno i o.place (omega arith) (omega arith) o.is_open.slot
                    (is.slot ∙ ap (λ d. some (pointer d)) (sym x)) in
                absurd (omega arith))
              ∙ is.desc;
        };
    inside = λ i g at. subst (λ n. g.file < n) (sym size) (r.inside i g (get_elem?-others i g at));
    apart =
        λ i j d li lj. r.apart i j d (omega (arith, length-others)) (omega (arith, length-others));
    error = r.error;
    messages = r.messages;
  }

  closed_shared-Represents :
      (o : Opened s a fdno h)
      → 1 < users h.file a.handles
      → Represents
          (closed s o.place (desc_of h) (some (record o.file { refs = o.file.refs - 1 })))
          (record a { handles = others })
  closed_shared-Represents o many =
      let dropped : File = record o.file { refs = o.file.refs - 1 } in
      let lt = lt-of-get_elem? s.files h.file o.is_open.file in
      let refs : dropped.refs ≡ users h.file others = omega (arith, o.refs, users_self) in
      closed-Represents o (some dropped) a.directory a.contents refl
        (FilesAre-set_same s.files a.contents (λ k. users k a.handles) (λ k. users k others) h.file
          (some dropped) o.contents r.file o.at lt
          (inl (record { file = dropped; at = refl; refs = refs; held = o.held })) users_other)
        (Searchable-set s.files s.file_list a.directory h.file o.file dropped r.directory
          o.is_open.file refl refl)

  closed_last-Represents :
      (o : Opened s a fdno h)
      → users h.file a.handles ≡ 1
      → Represents
          (closed s o.place (desc_of h) none)
          (record a { directory = none; contents = set a.contents h.file freed; handles = others })
  closed_last-Represents o one =
      closed-Represents o none none (set a.contents h.file freed)
        (length-set a.contents h.file freed)
        (FilesAre-set s.files a.contents (λ k. users k a.handles) (λ k. users k others) h.file none
          freed r.file (lt-of-get_elem? s.files h.file o.is_open.file)
          (inr (refl, refl, omega (arith, users_self))) users_other)
        tt

  drop_last-Simulates :
      (c : Contents)
      → (o : Opened s a fdno h) → o.contents ≡ c
      → users h.file a.handles ≡ 1
      → Simulates (ufs_close fdno s) (drop_handle (some h) (some c) fdno a)
  drop_last-Simulates unwritten o same one =
      let single : ltb 1 (users h.file a.handles) ≡ false = ground arith in rw single tt
  drop_last-Simulates freed o same one =
      let single : ltb 1 (users h.file a.handles) ≡ false = ground arith in rw single tt
  drop_last-Simulates (holds bytes) o same one =
      let single : ltb 1 (users h.file a.handles) ≡ false = ground arith in
      let filled = subst (Held o.file.block_list) same o.held in
      rw single (
        closed s o.place (desc_of h) none,
        ufs_close_last o.is_open (o.refs ∙ one) filled.at,
        closed_last-Represents o one,
      )

  drop_handle-Simulates :
      (o : Opened s a fdno h)
      → Simulates (ufs_close fdno s) (drop_handle (some h) (some o.contents) fdno a)
  drop_handle-Simulates o = elim (dec_lt 1 (users h.file a.handles)) [
    | yes many ↦
        let several : ltb 1 (users h.file a.handles) ≡ true = ground arith in
        let refs : 1 < o.file.refs = omega (arith, o.refs) in
        rw several (
          closed s o.place (desc_of h) (some (record o.file { refs = o.file.refs - 1 })),
          ufs_close_shared o.is_open refs,
          closed_shared-Represents o many,
        )
    | no few ↦ drop_last-Simulates o.contents o refl (omega (arith, o.some_users))
  ]

pub ufs_close-Simulates :
    {s : Ufs} {a : Spec} (fdno : ℕ)
    → Represents s a
    → Simulates (ufs_close fdno s) (spec_close fdno a)
unfolding spec_close
ufs_close-Simulates {s} {a} fdno r = elim (Bool-cases ((fdno + 1) == length a.handles)) [
  | inr inner ↦ rw inner tt
  | inl outer ↦
      let last : fdno + 1 ≡ length a.handles = ground arith in
      let (h, e) = get_elem?-lt a.handles fdno (omega arith) in
      let o = Represents-Opened fdno h r e in
      rw (outer, e, o.at) (drop_handle-Simulates r fdno h e last o)
]
