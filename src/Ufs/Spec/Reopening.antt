-- ===== src/Ufs/Spec/Reopening.antt =====
-- `find_filedesc`: the offset of a descriptor that is opened on a file in use.
use sysprog_solutions.Common.{
  ℕ, zero, suc, [], ◌∷◌, some, List, inl, inr, get_elem?, ◌≡◌, ok, Bool-cases, subst, ◌+◌, length,
  ◌==◌, arith, ap, ◌∙◌, refl, sym,
}
use sysprog_solutions.Ufs.State.{Ufs}
use sysprog_solutions.Ufs.Spec.{Spec, Handle, handle_on}
use sysprog_solutions.Ufs.Spec.Represents.{Represents, HandleIs, desc_of}
use mathlib.Core.Option.{some-injective}
use sysprog_solutions.Ufs.Calls.{find_filedesc_from, find_filedesc}

pub handle_on-at :
    (file : ℕ) (hs : List Handle) (h : Handle)
    → handle_on file hs ≡ some h
    → (h.file ≡ file) × (i : ℕ) × (get_elem? hs i ≡ some h)
unfolding handle_on
handle_on-at file [] h e = cc
handle_on-at file (g ∷ hs) h e = elim (Bool-cases (g.file == file)) [
  | inl here ↦
      let same : g ≡ h = some-injective g h (rw here at e) in
      let on : g.file ≡ file = ground arith in
      (ap (λ (x : Handle). x.file) (sym same) ∙ on, zero, ap some same)
  | inr there ↦ let (on, i, at) = handle_on-at file hs h (rw there at e) in (on, suc i, at)
]

find_filedesc_from-handle_on :
    (s : Ufs) (file i : ℕ) (hs : List Handle) (h : Handle)
    → ((j : ℕ) (g : Handle) → get_elem? hs j ≡ some g → HandleIs s (j + i) g)
    → handle_on file hs ≡ some h
    → (d : ℕ) × (find_filedesc_from (length hs) i file s ≡ ok (some d, s))
      × (get_elem? s.filedescs d ≡ some (some (desc_of h)))
unfolding handle_on find_filedesc_from
find_filedesc_from-handle_on s file i [] h is e = cc
find_filedesc_from-handle_on s file i (g ∷ hs) h is e =
    let start : 0 + i ≡ i = omega arith in
    let first : HandleIs s i g = subst (λ n. HandleIs s n g) start (is zero g refl) in
    elim (Bool-cases (g.file == file)) [
      | inl here ↦
          let same : g ≡ h = some-injective g h (rw here at e) in
          (
            first.place,
            rw (first.slot, first.desc, here) refl,
            first.desc ∙ ap (λ x. some (some (desc_of x))) same,
          )
      | inr there ↦
          let (d, found, desc) =
            find_filedesc_from-handle_on s file (i + 1) hs h
              (λ j x at. subst (λ n. HandleIs s n x) (omega arith) (is (suc j) x at))
              (rw there at e) in
          (d, rw (first.slot, first.desc, there) found, desc)
    ]

pub find_filedesc-handle_on :
    {s : Ufs} {a : Spec} (file : ℕ) (h : Handle)
    → Represents s a
    → handle_on file a.handles ≡ some h
    → (d : ℕ) × (find_filedesc file s ≡ ok (some d, s))
      × (get_elem? s.filedescs d ≡ some (some (desc_of h)))
unfolding find_filedesc
find_filedesc-handle_on {s} {a} file h r e =
    let (d, found, desc) =
      find_filedesc_from-handle_on s file 0 a.handles h
        (λ j g at. subst (λ n. HandleIs s n g) (omega arith) (r.handle j g at)) e in
    (d, ap (λ n. find_filedesc_from n 0 file s) r.count ∙ found, desc)
