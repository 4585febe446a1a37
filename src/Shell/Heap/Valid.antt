-- ===== src/Shell/Heap/Valid.antt =====
-- The shape of the nodes of shell.h: an argument array has MAXARGS slots, of which the last stays
-- NULL, and a node points to nodes that are older than itself.
use sysprog_solutions.Common.{
  ℕ, zero, suc, ◌+◌, ◌<◌, ◌≡◌, List, [], ◌∷◌, ◌++◌, Option, none, some, length, get_elem?, set,
  subst, arith,
}
use native.Mathlib.Decide.{ℕ_discrete}
use sysprog_solutions.Common.{inl, inr, ◌∙◌, ◌⊎◌, get_elem?-set_self, get_elem?-set_ne}
use sysprog_solutions.Shell.Lexer.{Text}
use sysprog_solutions.Shell.Heap.{Node, exec, pipe, redirect, Heap, max_args}

-- Node `n` may stand at position `p`.
abbrev pub NodeOk : ℕ → Node → Type 0
NodeOk p (exec argv) = (length argv ≡ max_args) × (get_elem? argv 5 ≡ some none)
NodeOk p (pipe left right) = (left < p) × (right < p)
NodeOk p (redirect cmd file mode fd) = cmd < p

abbrev pub ValidFrom : ℕ → Heap → Type 0
ValidFrom p [] = Unit
ValidFrom p (n ∷ h) = NodeOk p n × ValidFrom (suc p) h

abbrev pub Valid : Heap → Type 0
Valid h = ValidFrom 0 h

ValidFrom-append :
    (p : ℕ) (h : Heap) (n : Node)
    → ValidFrom p h
    → NodeOk (p + length h) n
    → ValidFrom p (h ++ n ∷ [])
ValidFrom-append p [] n v k = (subst (λ q. NodeOk q n) (omega arith) k, tt)
ValidFrom-append p (m ∷ h) n v k =
    (v.0, ValidFrom-append (suc p) h n v.1 (subst (λ q. NodeOk q n) (omega arith) k))

pub Valid-alloc : (h : Heap) (n : Node) → Valid h → NodeOk (length h) n → Valid (h ++ n ∷ [])
Valid-alloc h n v k = ValidFrom-append 0 h n v (subst (λ q. NodeOk q n) (omega arith) k)

ValidFrom-set :
    (p : ℕ) (h : Heap) (i : ℕ) (argv : List (Option Text))
    → ValidFrom p h
    → length argv ≡ max_args
    → get_elem? argv 5 ≡ some none
    → ValidFrom p (set h i (exec argv))
ValidFrom-set p [] i argv v l e = tt
ValidFrom-set p (m ∷ h) zero argv v l e = ((l, e), v.1)
ValidFrom-set p (m ∷ h) (suc i) argv v l e = (v.0, ValidFrom-set (suc p) h i argv v.1 l e)

pub Valid-set :
    (h : Heap) (i : ℕ) (argv : List (Option Text))
    → Valid h
    → length argv ≡ max_args
    → get_elem? argv 5 ≡ some none
    → Valid (set h i (exec argv))
Valid-set = ValidFrom-set 0

NodeOk-at :
    (p : ℕ) (h : Heap) (i : ℕ) {n : Node}
    → ValidFrom p h
    → get_elem? h i ≡ some n
    → NodeOk (p + i) n
NodeOk-at p [] i v e = ground arith
NodeOk-at p (m ∷ h) zero v e =
    subst (λ q. NodeOk (p + 0) q) (cc e) (subst (λ q. NodeOk q m) (omega arith) v.0)
NodeOk-at p (m ∷ h) (suc i) {n} v e =
    subst (λ q. NodeOk q n) (omega arith) (NodeOk-at (suc p) h i v.1 e)

pub Valid-at : (h : Heap) (i : ℕ) {n : Node} → Valid h → get_elem? h i ≡ some n → NodeOk i n
Valid-at h i {n} v e = subst (λ q. NodeOk q n) (omega arith) (NodeOk-at 0 h i v e)

-- A store that spares the last slot, or writes NULL there, leaves NULL there.
pub last_slot-set :
    (argv : List (Option Text)) (i : ℕ) (v : Option Text)
    → length argv ≡ max_args
    → get_elem? argv 5 ≡ some none
    → (i < 5) ⊎ (v ≡ none)
    → get_elem? (set argv i v) 5 ≡ some none
last_slot-set argv i v l e why = elim (ℕ_discrete i 5) [
  | yes at ↦ (elim why [
    | inl below ↦ absurd (omega arith)
    | inr null ↦ rw (at, null) (get_elem?-set_self argv 5 none (omega arith))
  ])
  | no apart ↦ get_elem?-set_ne argv i 5 v apart ∙ e
]
