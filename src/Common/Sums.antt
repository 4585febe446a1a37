-- ===== src/Common/Sums.antt =====
-- Sums of a weight over a list.
use Prim.Native.Nat.{ℕ, zero, suc, ◌+◌, ◌*◌, ◌≤◌, ◌<◌}
use mathlib.Core.Path.{◌≡◌, refl, ap}
use mathlib.Core.Logic.{◌≢◌}
use mathlib.Core.Option.{some}
use mathlib.Core.List.{List, [], ◌∷◌, ◌++◌}
use native.Mathlib.Omega.{arith}
use native.Mathlib.Decide.{dec_lt}
use sysprog_solutions.Common.Lists.{get_elem?, set, length, replicate}

module _ {L : Type 0} (w : L → ℕ) where
  unfoldable pub total : List L → ℕ
  total [] = 0
  total (l ∷ ls) = w l + total ls

  pub total-set :
      (ls : List L) (i : ℕ) (l l' : L)
      → get_elem? ls i ≡ some l
      → total (set ls i l') + w l ≡ total ls + w l'
  unfolding total
  total-set [] i l l' e = cc
  total-set (x ∷ ls) zero l l' e = let same : w x ≡ w l = cc in omega arith
  total-set (x ∷ ls) (suc i) l l' e = omega (arith, total-set ls i l l' e)

  pub total-replicate : (n : ℕ) (l : L) → total (replicate n l) ≡ n * w l
  unfolding total
  total-replicate zero l = omega arith
  total-replicate (suc n) l = grind (arith, total-replicate n l)

  pub le-total : (ls : List L) (i : ℕ) {l : L} → get_elem? ls i ≡ some l → w l ≤ total ls
  unfolding total
  le-total [] i e = cc
  le-total (x ∷ ls) zero {l} e = let same : w x ≡ w l = cc in omega arith
  le-total (x ∷ ls) (suc i) e = omega (arith, le-total ls i e)

  pub two-le-total :
      (ls : List L) (i j : ℕ) {l l' : L}
      → i ≢ j
      → get_elem? ls i ≡ some l
      → get_elem? ls j ≡ some l'
      → w l + w l' ≤ total ls
  unfolding total
  two-le-total [] i j apart e e' = cc
  two-le-total (x ∷ ls) zero zero apart e e' = absurd (apart refl)
  two-le-total (x ∷ ls) zero (suc j) {l} apart e e' =
      let same : w x ≡ w l = cc in omega (arith, le-total ls j e')
  two-le-total (x ∷ ls) (suc i) zero {l'} apart e e' =
      let same : w x ≡ w l' = cc in omega (arith, le-total ls i e)
  two-le-total (x ∷ ls) (suc i) (suc j) apart e e' =
      omega (arith, two-le-total ls i j (λ h. apart (ap suc h)) e e')

  pub total-le : (ls : List L) (k : ℕ) → ((l : L) → w l ≤ k) → total ls ≤ k * length ls
  unfolding total
  total-le [] k h = omega arith
  total-le (l ∷ ls) k h = grind (arith, total-le ls k h, h l)

  pub total-append : (ls rs : List L) → total (ls ++ rs) ≡ total ls + total rs
  unfolding total
  total-append [] rs = omega arith
  total-append (l ∷ ls) rs = omega (arith, total-append ls rs)

  pub total-group : (n : ℕ) (l l' : L) → total (replicate n l ++ (l' ∷ [])) ≡ n * w l + w l'
  unfolding total
  total-group n l l' = omega (arith, total-append (replicate n l) (l' ∷ []), total-replicate n l)

  pub total-all :
      (ls : List L) (c : ℕ)
      → ((i : ℕ) (l : L) → get_elem? ls i ≡ some l → w l ≡ c)
      → total ls ≡ length ls * c
  unfolding total
  total-all [] c h = omega arith
  total-all (l ∷ ls) c h = grind (arith, h zero l refl, total-all ls c (λ i m e. h (suc i) m e))

  -- A sum that is not zero has a member that counts.
  pub total-pos :
      (ls : List L) → 0 < total ls → (i : ℕ) × (l : L) × (get_elem? ls i ≡ some l) × (0 < w l)
  unfolding total
  total-pos [] h = absurd (omega arith)
  total-pos (l ∷ ls) h = elim (dec_lt 0 (w l)) [
    | yes here ↦ (zero, l, refl, here)
    | no none_here ↦ let (i, l', e, pos) = total-pos ls (omega arith) in (suc i, l', e, pos)
  ]

pub total_mono :
    {L : Type 0} (w v : L → ℕ) → ((l : L) → w l ≤ v l) → (ls : List L) → total w ls ≤ total v ls
unfolding total
total_mono w v h [] = omega arith
total_mono w v h (l ∷ ls) = omega (arith, total_mono w v h ls, h l)

pub total-add :
    {L : Type 0} (w v : L → ℕ) (ls : List L) → total (λ l. w l + v l) ls ≡ total w ls + total v ls
unfolding total
total-add w v [] = omega arith
total-add w v (l ∷ ls) = omega (arith, total-add w v ls)
