-- ===== src/Dup2/Tests.antt =====
-- The theorems of Dup2 at a small table of descriptors: `true` is one in use.
use sysprog_solutions.Common.{
  refl, ℕ, List, some, Bool, true, get_elem?, Option, ◌∷◌, none, set, ◌+◌, false, [], ◌≡◌, err,
  arith,
}
use sysprog_solutions.Dup2.{Fd, dup2_impl, CloseResult, bad_number, closed, fault}
use sysprog_solutions.Dup2.Runs.{dup2_impl_intermediate, next, here}

-- `dup` takes the lowest free entry, where the old one is in use.
abbrev first_free : ℕ → List Bool → Option (ℕ × List Bool)
first_free i [] = none
first_free i (false ∷ table) = some (i, true ∷ table)
first_free i (true ∷ table) = elim (first_free (i + 1) table) [
  | none ↦ none
  | some (j, table') ↦ some (j, true ∷ table')
]

abbrev taken : List Bool → Option (ℕ × List Bool) → Fd × List Bool
taken table none = (none, table)
taken table (some (j, table')) = (some j, table')

abbrev dup_in : List Bool → Option Bool → Fd × List Bool
dup_in table (some true) = taken table (first_free 0 table)
dup_in table _ = (none, table)

abbrev dup : ℕ → List Bool → Fd × List Bool
dup oldfd table = dup_in table (get_elem? table oldfd)

abbrev close_in : ℕ → List Bool → Option Bool → CloseResult × List Bool
close_in n table (some true) = (closed, set table n false)
close_in n table _ = (bad_number, table)

abbrev close : Fd → List Bool → CloseResult × List Bool
close none table = (bad_number, table)
close (some n) table = close_in n table (get_elem? table n)

dup2_impl_intermediate_example :
    dup2_impl dup close 9 (some 0) (some 2) (true ∷ false ∷ false ∷ []) ≡ err fault
dup2_impl_intermediate_example =
    dup2_impl_intermediate dup close 0 2 (true ∷ false ∷ false ∷ []) (true ∷ true ∷ false ∷ [])
      (true ∷ false ∷ false ∷ []) (true ∷ false ∷ false ∷ []) 1 closed bad_number (omega arith) refl
      refl refl (λ e. cc) 9 1 (next refl (here refl)) (omega arith) (omega arith)
