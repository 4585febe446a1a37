-- ===== src/Shell/Descriptors.antt =====
-- The descriptor table of a process, as `close`, `open`, `pipe` and `dup2` change it.
use sysprog_solutions.Common.{
  [], ◌∷◌, some, none, zero, suc, ℕ, refl, set, Option, List, ◌≡◌, if◌then◌else◌, ◌≤◌, arith, ◌==◌,
}
use sysprog_solutions.Shell.Lexer.{Text}
use sysprog_solutions.Shell.Heap.{OpenMode}

-- A process by the forks that led to it, and the number of forks that it has made.
pub record ProcessName : Type 0 where
  pub pid : List ℕ
  pub forks : ℕ

-- What a descriptor stands for. A pipe is named by the process that opened it, and when.
pub data File : Type 0 where
  inherited : ℕ → File
  opened : Text → OpenMode → File
  read_end write_end : ProcessName → File

-- The entry of a descriptor that is not open is `none`, as are those past the end.
abbrev pub Table : Type 0
Table = List (Option File)

abbrev pub at : Table → ℕ → Option File
at [] i = none
at (e ∷ t) zero = e
at (e ∷ t) (suc i) = at t i

-- `close(fd)`; where it is not open, nothing changes.
unfoldable pub close : ℕ → Table → Table
close fd t = set t fd none

-- The descriptor that `open` returns.
unfoldable pub lowest : Table → ℕ
lowest [] = 0
lowest (none ∷ t) = 0
lowest (some f ∷ t) = suc (lowest t)

unfoldable pub open_lowest : File → Table → Table
open_lowest f [] = some f ∷ []
open_lowest f (none ∷ t) = some f ∷ t
open_lowest f (some g ∷ t) = some g ∷ open_lowest f t

store : ℕ → File → Table → Table
store zero f [] = some f ∷ []
store zero f (e ∷ t) = some f ∷ t
store (suc n) f [] = none ∷ store n f []
store (suc n) f (e ∷ t) = e ∷ store n f t

abbrev store_if : Option File → ℕ → Table → Table
store_if none newfd t = t
store_if (some f) newfd t = store newfd f t

-- `dup2(oldfd, newfd)`; where `oldfd` is not open, it fails and nothing changes.
unfoldable pub dup2 : ℕ → ℕ → Table → Table
unfolding store
dup2 oldfd newfd t = store_if (at t oldfd) newfd t

pub at-close : (fd i : ℕ) (t : Table) → at (close fd t) i ≡ (if i == fd then none else at t i)
unfolding close
at-close fd i [] = ground arith
at-close zero zero (e ∷ t) = refl
at-close zero (suc i) (e ∷ t) = ground arith
at-close (suc fd) zero (e ∷ t) = ground arith
at-close (suc fd) (suc i) (e ∷ t) = ground (arith, at-close fd i t)

pub at-open_lowest :
    (f : File) (i : ℕ) (t : Table)
    → at (open_lowest f t) i ≡ (if i == lowest t then some f else at t i)
unfolding open_lowest lowest
at-open_lowest f zero [] = refl
at-open_lowest f (suc i) [] = ground arith
at-open_lowest f zero (none ∷ t) = refl
at-open_lowest f (suc i) (none ∷ t) = ground arith
at-open_lowest f zero (some g ∷ t) = ground arith
at-open_lowest f (suc i) (some g ∷ t) = ground (arith, at-open_lowest f i t)

at-store :
    (n i : ℕ) (f : File) (t : Table) → at (store n f t) i ≡ (if i == n then some f else at t i)
unfolding store
at-store zero zero f [] = refl
at-store zero (suc i) f [] = ground arith
at-store zero zero f (e ∷ t) = refl
at-store zero (suc i) f (e ∷ t) = ground arith
at-store (suc n) zero f [] = ground arith
at-store (suc n) (suc i) f [] = ground (arith, at-store n i f [])
at-store (suc n) zero f (e ∷ t) = ground arith
at-store (suc n) (suc i) f (e ∷ t) = ground (arith, at-store n i f t)

pub at-dup2 :
    (oldfd newfd i : ℕ) (f : File) (t : Table)
    → at t oldfd ≡ some f
    → at (dup2 oldfd newfd t) i ≡ (if i == newfd then some f else at t i)
unfolding dup2
at-dup2 oldfd newfd i f t e = rw e (at-store newfd i f t)

pub at-lowest : (t : Table) → at t (lowest t) ≡ none
unfolding lowest
at-lowest [] = refl
at-lowest (none ∷ t) = refl
at-lowest (some f ∷ t) = at-lowest t

-- Below the lowest free descriptor all are in use.
pub ge-lowest : (t : Table) (i : ℕ) → at t i ≡ none → lowest t ≤ i
unfolding lowest
ge-lowest [] i e = omega arith
ge-lowest (none ∷ t) i e = omega arith
ge-lowest (some f ∷ t) zero e = cc
ge-lowest (some f ∷ t) (suc i) e = omega (arith, ge-lowest t i e)
