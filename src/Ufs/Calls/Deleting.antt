-- ===== src/Ufs/Calls/Deleting.antt =====
-- `ufs_delete` against the directory that the list of files stands for.
use sysprog_solutions.Common.{
  ◌>>=◌, [], ◌∷◌, ℕ, none, some, inl, inr, List, Option, if◌then◌else◌, ◌==◌, ◌≢◌, ◌≡◌, get_elem?,
  Bool-cases, true, set, arith, ==_ne, false, refl, ◌∙◌, get_elem?-set_ne, sym, ap,
  get_elem?-set_self, lt-of-get_elem?, subst, Ensures, ok, returns, length-set, length, ◌<◌, bind,
  mono,
}
use sysprog_solutions.Ufs.Files.Directory.{
  nil, cons, Directory, lookup, Linked, some-some-injective, Below, find_file_struct-lookup,
}
use mathlib.Core.Option.{some-injective}
use native.Mathlib.Decide.{ℕ_discrete}
use sysprog_solutions.Ufs.State.{File, Text, Ufs, minus_one, value, OpenFlags}
use sysprog_solutions.Ufs.Files.{has_name, find_file_struct}
use sysprog_solutions.Ufs.Calls.{ufs_delete, ufs_open}
use sysprog_solutions.Ufs.Calls.Opening.{ufs_open-Created}

-- A name is never found behind an entry that has it.
pub Unique : Directory → Type 0
Unique [] = Unit {0}
Unique ((a, name) ∷ dir) = ((t : Text) → has_name name t ≡ true → lookup t dir ≡ none) × Unique dir

-- The directory with the file at `a` without its name.
unfoldable pub unname : ℕ → Directory → Directory
unname a [] = []
unname a ((b, name) ∷ dir) = (b, if b == a then none else name) ∷ unname a dir

pub Linked-unname :
    {files : List (Option File)} {o : Option ℕ} {dir : Directory} (a : ℕ) (f : File)
    → Linked files o dir
    → get_elem? files a ≡ some (some f)
    → Linked (set files a (some (record f { name = none }))) o (unname a dir)
unfolding unname
Linked-unname a f nil e = nil
Linked-unname {files} a f (cons {a = b} {f = g} {dir} at below l) e =
    let rest = Linked-unname a f l e in
    elim (ℕ_discrete a b) [
      | no apart ↦
          let other : (b == a) ≡ false = ground arith in
          rw other (cons (get_elem?-set_ne files a b _ apart ∙ at) below rest)
      | yes same ↦
          let here : (b == a) ≡ true = ground arith in
          let found : g ≡ f = some-some-injective (sym at ∙ ap (get_elem? files) (sym same) ∙ e) in
          let prev : g.prev ≡ f.prev = ap (λ (x : File). x.prev) found in
          rw here (
            cons {f = record f { name = none }}
              (ap (get_elem? (set files a (some (record f { name = none })))) (sym same)
                ∙ get_elem?-set_self files a _ (lt-of-get_elem? files a e))
              (subst (λ x. Below x b) prev below)
              (subst (λ x. Linked (set files a (some (record f { name = none }))) x (unname a dir))
                prev rest))
    ]

lookup-unname_other :
    (t : Text) (a : ℕ) (dir : Directory)
    → lookup t dir ≢ some a
    → lookup t (unname a dir) ≡ lookup t dir
unfolding lookup unname
lookup-unname_other t a [] h = refl
lookup-unname_other t a ((b, name) ∷ dir) h = elim (Bool-cases (has_name name t)) [
  | inl hit ↦ let apart : b ≢ a = λ same. h (rw (hit, same) refl) in rw (==_ne b a apart, hit) refl
  | inr miss ↦
      let rest = lookup-unname_other t a dir (λ x. h (rw miss x)) in
      elim (Bool-cases (b == a)) [
        | inl here ↦ rw (here, miss) rest
        | inr there ↦ rw (there, miss) rest
      ]
]

lookup-unname :
    (t : Text) (a : ℕ) (dir : Directory)
    → Unique dir
    → lookup t dir ≡ some a
    → lookup t (unname a dir) ≡ none
unfolding lookup unname Unique
lookup-unname t a [] u e = cc
lookup-unname t a ((b, name) ∷ dir) (fresh, u) e = elim (Bool-cases (has_name name t)) [
  | inl hit ↦
      let same : b ≡ a = some-injective b a (rw hit at e) in
      let here : (b == a) ≡ true = ground arith in
      let missing : lookup t dir ≡ none = fresh t hit in
      rw here (lookup-unname_other t a dir (λ x. cc) ∙ missing)
  | inr miss ↦
      let rest = lookup-unname t a dir u (rw miss at e) in
      elim (Bool-cases (b == a)) [ inl here ↦ rw here rest | inr there ↦ rw (there, miss) rest ]
]

Unique-unname : (a : ℕ) (dir : Directory) → Unique dir → Unique (unname a dir)
unfolding Unique unname
Unique-unname a [] u = tt
Unique-unname a ((b, name) ∷ dir) (fresh, u) = (
  λ t e. elim (Bool-cases (b == a)) [
    | inl here ↦ cc
    | inr there ↦
        let missing : lookup t dir ≡ none = fresh t (rw there at e) in
        lookup-unname_other t a dir (λ x. cc) ∙ missing
  ],
  Unique-unname a dir u,
)

-- What `ufs_delete` leaves of the directory `dir`, where the file `a` had the name.
record Deleted (filename : Text) (a : ℕ) (dir : Directory) (s s' : Ufs) : Type 0 where
  pub linked : Linked s'.files s'.file_list (unname a dir)
  pub unique : Unique (unname a dir)
  pub missing : find_file_struct filename s' ≡ ok (none, s')
  pub kept :
      (other : Text)
      → lookup other dir ≢ some a
      → find_file_struct other s' ≡ ok (lookup other dir, s')
  pub gone : lookup filename (unname a dir) ≡ none
  pub size : length s'.files ≡ length s.files
  pub filedescs : s'.filedescs ≡ s.filedescs
  pub table : s'.file_descriptors ≡ s.file_descriptors
  pub count : s'.file_descriptor_count ≡ s.file_descriptor_count

pub lookup-Linked :
    (t : Text) {files : List (Option File)} {o : Option ℕ} {dir : Directory} {a : ℕ}
    → Linked files o dir
    → lookup t dir ≡ some a
    → (f : File) × (get_elem? files a ≡ some (some f))
unfolding lookup
lookup-Linked t nil e = cc
lookup-Linked t {files} (cons {a = b} {f} at below l) e = elim (Bool-cases (has_name f.name t)) [
  | inl hit ↦ (f, ap (get_elem? files) (sym (some-injective b _ (rw hit at e))) ∙ at)
  | inr miss ↦ lookup-Linked t l (rw miss at e)
]

-- On a well-formed list of files in which no two have one name, `ufs_delete` of a name that a file
-- has returns 0. No search finds the name afterwards, any search that would not have led to that
-- file finds what it found before, and no two files have one name; the descriptors stay.
ufs_delete-Deleted :
    (filename : Text) (s : Ufs) (a : ℕ) {dir : Directory}
    → Linked s.files s.file_list dir
    → Unique dir
    → lookup filename dir ≡ some a
    → Ensures (λ r s'. (r ≡ value 0) × Deleted filename a dir s s') (λ _. ⊥) (ufs_delete filename s)
unfolding ufs_delete
ufs_delete-Deleted filename s a {dir} l u e =
    let (f, at) = lookup-Linked filename l e in
    let linked = Linked-unname a f l at in
    let gone = lookup-unname filename a dir u e in
    let s' : Ufs = record s { files = set s.files a (some (record f { name = none })) } in
    rw (find_file_struct-lookup filename s l, e, at)
      (returns (
        refl,
        record {
          linked = linked;
          unique = Unique-unname a dir u;
          missing = find_file_struct-lookup filename s' linked ∙ ap (λ o. ok (o, s')) gone;
          kept = λ other apart.
              find_file_struct-lookup other s' linked
              ∙ ap (λ o. ok (o, s')) (lookup-unname_other other a dir apart);
          gone = gone;
          size = length-set s.files a (some (record f { name = none }));
          count = refl;
          filedescs = refl;
          table = refl;
        },
      ))

-- On a well-formed list of files, `ufs_delete` of a name that no file has returns -1 and changes
-- nothing, `ufs_errno` included.
pub ufs_delete_missing :
    (filename : Text) (s : Ufs) {dir : Directory}
    → Linked s.files s.file_list dir
    → lookup filename dir ≡ none
    → (ufs_delete filename s ≡ ok (minus_one, s))
unfolding ufs_delete
ufs_delete_missing filename s l e = rw (find_file_struct-lookup filename s l, e) refl

-- On a well-formed list of files in which no two have one name, with room in the array of
-- descriptors, `UFS_CREATE` for a name that `ufs_delete` has just removed succeeds: a new file of
-- that name comes first in the directory, and the old file stays there without a name.
ufs_open-ufs_delete :
    (filename : Text) (flags : OpenFlags) (s : Ufs) (a : ℕ) {dir : Directory}
    → Linked s.files s.file_list dir
    → Unique dir
    → lookup filename dir ≡ some a
    → flags.create ≡ true
    → s.file_descriptor_count < length s.file_descriptors
    → Ensures
        (λ r s'.
          (r ≡ value s.file_descriptor_count)
          × Linked s'.files s'.file_list ((length s.files, some filename) ∷ unname a dir))
        (λ _. ⊥)
        ((ufs_delete filename >>= λ _. ufs_open filename flags) s)
ufs_open-ufs_delete filename flags s a {dir} l u e create room =
    bind (ufs_delete-Deleted filename s a l u e) λ _ s1 p.
      let d = p.1 in
      let room1 : s1.file_descriptor_count < length s1.file_descriptors =
        rw (d.count, d.table) room in
      mono (ufs_open-Created filename flags s1 d.linked create d.gone room1)
        (λ r s2 q. (
          q.0 ∙ ap value d.count,
          subst (λ n. Linked s2.files s2.file_list ((n, some filename) ∷ unname a dir)) d.size
              q.1.linked,
        ))
        (λ _ x. x)
