-- ===== src/Shell/Parser/Invariant.antt =====
-- What the parser of shell.c keeps up while it reads a line, and the steps that keep it.
use native.Mathlib.Nat.{le_refl}
use sysprog_solutions.Common.{
  Bool-cases, inl, inr, ◌++◌, ◌∷◌, [], length-append, ℕ, ◌≤◌, ◌<◌, ◌≢◌, arith, length, Ensures,
  returns, stops, Option, ◌⊎◌, ◌≡◌, none, get_elem?, some, ltb, length-set, set, ◌∙◌, replicate,
  refl,
}
use sysprog_solutions.Shell.Lexer.{Text, TokenType, input, output}
use sysprog_solutions.Shell.Lexer.Progress.{NoNul}
use sysprog_solutions.Shell.Heap.{
  Exit, out_of_fuel, symbols_remained, Parse, command_create_redirect, Node, set_argv, exec,
  max_args,
}
use sysprog_solutions.Shell.Heap.Valid.{
  NodeOk, Valid, Valid-alloc, Valid-set, Valid-at, last_slot-set,
}
use sysprog_solutions.Shell.Parser.{redirect_case}

-- What holds while a line is parsed: at most `c` bytes are left, there are `n` nodes or more, and
-- `p` points to a node.
pub record Fits (c n p : ℕ) (st : Parse) : Type 0 where
  pub no_nul : NoNul st.cursor
  pub shorter : length st.cursor ≤ c
  pub valid : Valid st.heap
  pub grows : n ≤ length st.heap
  pub points : p < length st.heap

-- An error exit that is the shell's own: the model has fuel, and the line is read to its end.
abbrev pub Expected : Exit → Type 0
Expected e = (e ≢ out_of_fuel) × (e ≢ symbols_remained)

pub Fits-weaken : {c c' n n' p : ℕ} {st : Parse} → Fits c n p st → c ≤ c' → n' ≤ n → Fits c' n' p st
Fits-weaken f h k = record {
  no_nul = f.no_nul;
  shorter = omega (arith, f.shorter);
  valid = f.valid;
  grows = omega (arith, f.grows);
  points = f.points;
}

module _ {c n : ℕ} where
  pub Fits-seek :
      {p : ℕ} {st : Parse} (s : Text)
      → Fits c n p st
      → NoNul s
      → length s ≤ length st.cursor
      → Fits c n p (record st { cursor = s })
  Fits-seek s f h l = record {
    no_nul = h;
    shorter = omega (arith, f.shorter);
    valid = f.valid;
    grows = f.grows;
    points = f.points;
  }

  -- A new node at the end of the heap, where the parser goes on with its address.
  pub Fits-alloc :
      {p : ℕ} {st : Parse} (m : Node)
      → Fits c n p st
      → NodeOk (length st.heap) m
      → Fits c n (length st.heap) (record st { heap = st.heap ++ m ∷ [] })
  Fits-alloc {st} m f k = record {
    no_nul = f.no_nul;
    shorter = f.shorter;
    valid = Valid-alloc st.heap m f.valid k;
    grows = omega (arith, length-append st.heap (m ∷ []), f.grows);
    points = omega (arith, length-append st.heap (m ∷ []));
  }

  -- `command_create_exec`
  pub Fits-alloc_exec :
      (st : Parse)
      → NoNul st.cursor
      → length st.cursor ≤ c
      → Valid st.heap
      → n ≤ length st.heap
      → Fits c n
          (length st.heap)
          (record st { heap = st.heap ++ exec (replicate max_args none) ∷ [] })
  Fits-alloc_exec st z l v g =
      let grown = length-append st.heap (exec (replicate max_args none) ∷ []) in
      record {
        no_nul = z;
        shorter = l;
        valid = Valid-alloc st.heap _ v (refl, refl);
        grows = omega arith;
        points = omega arith;
      }

  pub redirect_case-Fits :
      (t : TokenType) (p : ℕ) (file : Text) (st : Parse)
      → Fits c n p st
      → Ensures
          (λ q st'. Fits c n q st' × (length st'.cursor ≤ length st.cursor))
          Expected
          (redirect_case t p file st)
  unfolding redirect_case command_create_redirect
  redirect_case-Fits input p file st f = returns (Fits-alloc _ f f.points, le_refl _)
  redirect_case-Fits output p file st f = returns (Fits-alloc _ f f.points, le_refl _)
  redirect_case-Fits _ p file st f = returns (f, le_refl _)

  -- A store by `cmde->argv[i]` faults or keeps the nodes valid: the last slot gets only NULL.
  pub set_argv-Fits :
      (o : Option Node) (cmde i : ℕ) (v : Option Text) {p : ℕ} (st : Parse)
      → get_elem? st.heap cmde ≡ o
      → Fits c n p st
      → (i < 5) ⊎ (v ≡ none)
      → Ensures
          (λ _ st'. Fits c n p st' × (st'.cursor ≡ st.cursor))
          Expected
          (set_argv o cmde i v st)
  unfolding set_argv
  set_argv-Fits (some (exec argv)) cmde i v {p} st e f why =
      elim (Bool-cases (ltb i (length argv))) [
        | inr past ↦ rw past (stops (λ e. cc, λ e. cc))
        | inl within ↦ rw within (
            let (l, z) = Valid-at st.heap cmde f.valid e in
            let same = length-set st.heap cmde (exec (set argv i v)) in
            returns (
              record {
                no_nul = f.no_nul;
                shorter = f.shorter;
                valid =
                    Valid-set st.heap cmde (set argv i v) f.valid (length-set argv i v ∙ l)
                      (last_slot-set argv i v l z why);
                grows = omega (arith, same, f.grows);
                points = omega (arith, same, f.points);
              },
              refl,
            ))
      ]
  set_argv-Fits _ cmde i v st e f why = stops (λ e. cc, λ e. cc)

pub set_argv-Expected :
    (o : Option Node) (cmde i : ℕ) (v : Option Text) (st : Parse)
    → Ensures (λ _ _. Unit {0}) Expected (set_argv o cmde i v st)
unfolding set_argv
set_argv-Expected (some (exec argv)) cmde i v st = elim (Bool-cases (ltb i (length argv))) [
  | inr past ↦ rw past (stops (λ e. cc, λ e. cc))
  | inl within ↦ rw within (returns tt)
]
set_argv-Expected _ cmde i v st = stops (λ e. cc, λ e. cc)
