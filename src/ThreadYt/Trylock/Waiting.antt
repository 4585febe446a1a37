-- ===== src/ThreadYt/Trylock/Waiting.antt =====
-- Where a chef looks for a stove behind a wait.
use mathlib.Core.Option.{some-injective}
use sysprog_solutions.Common.{
  ℕ, zero, suc, refl, some, get_elem?, ◌≡◌, arith, ◌+◌, ap, sym, ◌∙◌, set, get_elem?-set_self,
  lt-of-get_elem?, get_elem?-set_ne,
}
use sysprog_solutions.ThreadYt.Trylock.{
  trying, waiting, cooking, leaving, try_free, try_next, try_last, wait_over, cook, no_fuel, unlock,
  Memory, State, Pc, Move, gone,
}
use sysprog_solutions.ThreadYt.System.{State, Reach, Reach-invariant}
use native.Mathlib.Decide.{ℕ_discrete}

-- Chefs that try or have the first stove.
abbrev pub at_first : Pc → ℕ
at_first (trying zero) = 1
at_first (cooking zero) = 1
at_first (leaving zero) = 1
at_first _ = 0

at_first-Move :
    (m : Memory) (l : Pc) (m' : Memory) (l' : Pc)
    → Move m l m' l'
    → at_first l ≡ 0
    → at_first l' ≡ 0
at_first-Move m (trying zero) _ _ mv h = absurd (omega arith)
at_first-Move m (trying (suc i)) _ _ (try_free free) h = refl
at_first-Move m (trying (suc i)) _ _ (try_next busy more) h =
    let up : suc i + 1 ≡ suc (i + 1) = omega arith in ap (λ n. at_first (trying n)) up
at_first-Move m (trying (suc i)) _ _ (try_last busy last) h = refl
at_first-Move m waiting _ _ wait_over h = refl
at_first-Move m (cooking zero) _ _ mv h = absurd (omega arith)
at_first-Move m (cooking (suc i)) _ _ (cook there few enough) h = refl
at_first-Move m (cooking (suc i)) _ _ (no_fuel there few short) h = refl
at_first-Move m (leaving i) _ _ unlock h = refl
at_first-Move m gone _ _ mv h = elim mv [ ]

-- A chef that has waited for a stove never tries or gets the first one again.
pub Reach-not_first :
    (i : ℕ) {s : State Memory Pc} {k : ℕ} {t : State Memory Pc}
    → get_elem? s.threads i ≡ some waiting
    → Reach Move s k t
    → (l : Pc) × (get_elem? t.threads i ≡ some l) × (at_first l ≡ 0)
Reach-not_first i e =
    Reach-invariant (λ _ t. (l : Pc) × (get_elem? t.threads i ≡ some l) × (at_first l ≡ 0))
      (λ _ m ls k l m' l' at_k mv held.
        let (a, at_i, away) = held in
        elim (ℕ_discrete k i) [
          | yes same ↦
              let own : l ≡ a = some-injective l a (sym at_k ∙ ap (get_elem? ls) same ∙ at_i) in
              (
                l',
                ap (get_elem? (set ls k l')) (sym same)
                    ∙ get_elem?-set_self ls k l' (lt-of-get_elem? ls k at_k),
                at_first-Move m l m' l' mv (ap at_first own ∙ away),
              )
          | no differ ↦ (a, get_elem?-set_ne ls k i l' differ ∙ at_i, away)
        ])
      (waiting, e, refl)
