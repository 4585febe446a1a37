-- ===== src/Ufs/Files/Directory.antt =====
-- The list of files of userfs.c as a directory, and what `find_file_struct` finds in it.
use sysprog_solutions.Common.{
  ℕ, zero, suc, ◌<◌, ◌≡◌, ◌∙◌, refl, ap, List, [], ◌∷◌, ◌++◌, Option, some, none, set, length,
  get_elem?, ok, arith, if◌then◌else◌, lt-of-get_elem?, get_elem?-append, Bool-cases, ◌≤◌,
  get_elem?-set_ne, inl, sym, inr, subst, get_elem?-set_self,
}
use sysprog_solutions.Ufs.State.{Text, File, Ufs}
use sysprog_solutions.Ufs.Files.{has_name, find_from, find_file_struct}
use native.Mathlib.Decide.{ℕ_discrete}

-- The files that `file_list` and the `prev` pointers lead to, the newest first.
abbrev pub Directory : Type 0
Directory = List (ℕ × Option Text)

abbrev pub Below : Option ℕ → ℕ → Type 0
Below none a = Unit
Below (some p) a = p < a

-- From `o` the `prev` pointers lead through live files, each older than the one before it.
pub data Linked (files : List (Option File)) : Option ℕ → Directory → Type 0 where
  nil : Linked files none []
  cons :
      {a : ℕ} {f : File} {dir : Directory}
      → get_elem? files a ≡ some (some f)
      → Below f.prev a
      → Linked files f.prev dir
      → Linked files (some a) ((a, f.name) ∷ dir)

-- The newest file of that name.
unfoldable pub lookup : Text → Directory → Option ℕ
lookup filename [] = none
lookup filename ((a, name) ∷ dir) = if has_name name filename then some a else lookup filename dir

Below-le : (o : Option ℕ) {a b : ℕ} → Below o a → a ≤ b → Below o b
Below-le none h l = tt
Below-le (some p) h l = omega arith

find_from-lookup :
    (k : ℕ) (filename : Text) (s : Ufs) {o : Option ℕ} {dir : Directory}
    → Linked s.files o dir
    → Below o k
    → find_from k o filename s ≡ ok (lookup filename dir, s)
unfolding find_from lookup
find_from-lookup zero filename s nil h = refl
find_from-lookup (suc k) filename s nil h = refl
find_from-lookup zero filename s (cons e b l) h = absurd (omega arith)
find_from-lookup (suc k) filename s (cons {f} e b l) h =
    rw e (elim (Bool-cases (has_name f.name filename)) [
      | inl hit ↦ rw hit
      | inr miss ↦ rw miss (find_from-lookup k filename s l (Below-le f.prev b (omega arith)))
    ])

pub Linked-Below :
    {files : List (Option File)} {o : Option ℕ} {dir : Directory}
    → Linked files o dir
    → Below o (length files)
Linked-Below nil = tt
Linked-Below {files} (cons {a} e b l) = lt-of-get_elem? files a e

-- On a well-formed list of files, `find_file_struct` ends, finds the newest file of the name, or no
-- file where none has it, and changes nothing.
pub find_file_struct-lookup :
    (filename : Text) (s : Ufs) {dir : Directory}
    → Linked s.files s.file_list dir
    → find_file_struct filename s ≡ ok (lookup filename dir, s)
unfolding find_file_struct
find_file_struct-lookup filename s l =
    find_from-lookup (length s.files) filename s l (Linked-Below l)

pub Linked-append :
    {files : List (Option File)} {o : Option ℕ} {dir : Directory} (g : List (Option File))
    → Linked files o dir
    → Linked (files ++ g) o dir
Linked-append g nil = nil
Linked-append {files} g (cons {a} e b l) = cons (get_elem?-append files g a e) b (Linked-append g l)

pub some-some-injective : {f g : File} → some (some f) ≡ some (some g) → f ≡ g
some-some-injective e = cc

-- A change of a file that keeps its name and its `prev`.
pub Linked-set :
    {files : List (Option File)} {o : Option ℕ} {dir : Directory} (c : ℕ) (f g : File)
    → Linked files o dir
    → get_elem? files c ≡ some (some f)
    → g.name ≡ f.name
    → g.prev ≡ f.prev
    → Linked (set files c (some g)) o dir
Linked-set c f g nil e n p = nil
Linked-set {files} c f g (cons {a} {f = h} {dir} e' b l) e n p =
    let rest = Linked-set c f g l e n p in
    elim (ℕ_discrete a c) [
      | no apart ↦ cons (get_elem?-set_ne files c a (some g) (λ x. apart (sym x)) ∙ e') b rest
      | yes at ↦
          let same : h ≡ f = some-some-injective (sym e' ∙ ap (get_elem? files) at ∙ e) in
          let name : g.name ≡ h.name = n ∙ ap (λ (x : File). x.name) (sym same) in
          let prev : h.prev ≡ g.prev = ap (λ (x : File). x.prev) same ∙ sym p in
          subst (λ t. Linked (set files c (some g)) (some a) ((a, t) ∷ dir)) name
            (cons
              (ap (get_elem? (set files c (some g))) at
                ∙ get_elem?-set_self files c (some g) (lt-of-get_elem? files c e))
              (subst (λ t. Below t a) prev b)
              (subst (λ t. Linked (set files c (some g)) t dir) prev rest))
    ]
