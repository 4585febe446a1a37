-- ===== src/Ufs/Spec/Deleting.antt =====
-- `ufs_delete` keeps its promise.
use sysprog_solutions.Common.{
  ℕ, some, none, inl, inr, get_elem?, ◌≡◌, set, Option-cases, subst, lt-of-get_elem?, get_elem?-lt,
  ◌<◌, sym, ◌∙◌, ap, length-set, refl,
}
use sysprog_solutions.Ufs.State.{Ufs, Text, File}
use sysprog_solutions.Ufs.Spec.{Spec, users, delete_in, Directory, spec_delete}
use sysprog_solutions.Ufs.Spec.Represents.{
  Represents, Simulates, FilesAre-set_same, Searchable, FileIs, Held,
}
use sysprog_solutions.Ufs.Calls.Deleting.{unname, Linked-unname, lookup-Linked, ufs_delete_missing}
use sysprog_solutions.Ufs.Calls.{ufs_delete}
use sysprog_solutions.Ufs.Files.Directory.{
  Directory, Linked, some-some-injective, lookup, find_file_struct-lookup,
}

unnamed-Represents :
    {s : Ufs} {a : Spec} (k : ℕ) (f : File) (dir : Directory)
    → Represents s a
    → Linked s.files s.file_list dir
    → get_elem? s.files k ≡ some (some f)
    → Represents
        (record s { files = set s.files k (some (record f { name = none })) })
        (record a { directory = some (unname k dir) })
unnamed-Represents {s} {a} k f dir r l at =
    let lt = lt-of-get_elem? s.files k at in
    let (c, there) = get_elem?-lt a.contents k (subst (λ n. k < n) r.files lt) in
    let named : File = record f { name = none } in
    let is : FileIs (some (some named)) c (users k a.handles) = elim (r.file k c there) [
      | inl live ↦
          let same : live.file ≡ f = some-some-injective (sym live.at ∙ at) in
          inl (record {
            file = named;
            at = refl;
            refs = ap (λ (x : File). x.refs) (sym same) ∙ live.refs;
            held = subst (λ (x : File). Held x.block_list c) same live.held;
          })
      | inr (gone, _, _) ↦ cc
    ] in
    record {
      files = length-set s.files k _ ∙ r.files;
      file =
          FilesAre-set_same s.files a.contents (λ j. users j a.handles) (λ j. users j a.handles) k
            (some named) c r.file there lt is (λ j apart. refl);
      directory = Linked-unname k f l at;
      count = r.count;
      room = r.room;
      handle = λ i h e.
          let d = r.handle i h e in record { place = d.place; slot = d.slot; desc = d.desc };
      inside = r.inside;
      apart = r.apart;
      error = r.error;
      messages = r.messages;
    }

delete_in-Simulates :
    {s : Ufs} {a : Spec} (filename : Text) (dir : Directory)
    → Represents s a
    → Linked s.files s.file_list dir
    → Simulates (ufs_delete filename s) (delete_in (some dir) filename a)
unfolding ufs_delete
delete_in-Simulates {s} {a} filename dir r l = elim (Option-cases (lookup filename dir)) [
  | inl missing ↦ rw missing (s, ufs_delete_missing filename s l missing, r)
  | inr (k, there) ↦
      let (f, at) = lookup-Linked filename l there in
      rw there (
        record s { files = set s.files k (some (record f { name = none })) },
        rw (find_file_struct-lookup filename s l, there, at) refl,
        unnamed-Represents k f dir r l at,
      )
]

pub ufs_delete-Simulates :
    {s : Ufs} {a : Spec} (filename : Text)
    → Represents s a
    → Simulates (ufs_delete filename s) (spec_delete filename a)
unfolding spec_delete
ufs_delete-Simulates {s} {a} filename r = elim (Option-cases a.directory) [
  | inl unknown ↦
      subst (λ d. Simulates (ufs_delete filename s) (delete_in d filename a)) (sym unknown) tt
  | inr (dir, known) ↦
      let l = subst (Searchable s.files s.file_list) known r.directory in
      subst (λ d. Simulates (ufs_delete filename s) (delete_in d filename a)) (sym known)
        (delete_in-Simulates filename dir r l)
]
