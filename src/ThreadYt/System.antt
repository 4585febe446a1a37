-- ===== src/ThreadYt/System.antt =====
-- Threads that share memory, interleaved in any order.
use sysprog_solutions.Common.{
  true, false, ℕ, suc, refl, some, List, get_elem?, ◌≤◌, ◌≡◌, set, arith, Bool,
}

-- The memory and where each thread stands. `main` has created all threads.
pub record State (S L : Type 0) : Type 0 where
  pub shared : S
  pub threads : List L

-- The moves of one thread: the memory and its position, before and after.
abbrev pub Moves : Type 0 → Type 0 → Type 1
Moves S L = S → L → S → L → Type 0

module _ {S L : Type 0} where
  pub data Step (Move : Moves S L) (s : State S L) : State S L → Type 0 where
    pick :
        (i : ℕ) {l l' : L} {m : S}
        → get_elem? s.threads i ≡ some l
        → Move s.shared l m l'
        → Step Move s (record { shared = m; threads = set s.threads i l' })

  -- The states behind `n` moves.
  pub data Reach (Move : Moves S L) (s : State S L) : ℕ → State S L → Type 0 where
    begin : Reach Move s 0 s
    later : {n : ℕ} {t u : State S L} → Reach Move s n t → Step Move t u → Reach Move s (suc n) u

  -- What holds at the start and is kept by each move of a thread holds in all states.
  pub Reach-invariant :
      {Move : Moves S L} (P : ℕ → State S L → Type 0)
      → ((n : ℕ) (m : S) (ls : List L) (i : ℕ) (l : L) (m' : S) (l' : L)
          → get_elem? ls i ≡ some l
          → Move m l m' l'
          → P n (record { shared = m; threads = ls })
          → P (suc n) (record { shared = m'; threads = set ls i l' }))
      → {s : State S L} {n : ℕ} {t : State S L} → P 0 s
      → Reach Move s n t
      → P n t
  Reach-invariant P keep h begin = h
  Reach-invariant P keep h (later {t} r (pick i e mv)) =
      keep _ t.shared t.threads i _ _ _ e mv (Reach-invariant P keep h r)

-- A Boolean of the memory as a number: a mutex that is locked has one holder.
abbrev pub bit : Bool → ℕ
bit true = 1
bit false = 0

pub bit-le : (b : Bool) → bit b ≤ 1
bit-le true = omega arith
bit-le false = omega arith

pub bit_zero : (b : Bool) → bit b ≡ 0 → b ≡ false
bit_zero true h = absurd (omega arith)
bit_zero false h = refl
