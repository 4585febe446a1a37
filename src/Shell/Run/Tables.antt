-- ===== src/Shell/Run/Tables.antt =====
-- The descriptors of the processes that `run_cmd` starts.
use sysprog_solutions.Common.{
  some, none, ℕ, refl, false, ◌≢◌, ◌≡◌, if◌then◌else◌, ◌==◌, ==_ne, ==_self, sym, ap, ◌∙◌, arith,
  ◌≤◌,
}
use sysprog_solutions.Shell.Descriptors.{
  Table, File, at, lowest, open_lowest, at-lowest, at-open_lowest, at-close, close, dup2, at-dup2,
  ge-lowest,
}
use sysprog_solutions.Shell.Run.{move_end}
use sysprog_solutions.Shell.Run.Wiring.{Std}

-- An end of a pipe is moved to a standard descriptor, and both ends are closed.
at-move_end :
    (fd std other i : ℕ) (f : File) (t : Table)
    → fd ≢ std
    → at t fd ≡ some f
    → at (move_end fd std other t) i
      ≡ (if i == other then none else if i == fd then none else if i == std then some f else at t i)
at-move_end fd std other i f t apart e =
    let b : (fd == std) ≡ false = ==_ne fd std apart in
    rw
      (
        b,
        at-close other i (close fd (dup2 fd std t)),
        at-close fd i (dup2 fd std t),
        at-dup2 fd std i f t e,
      )
      refl

-- The table behind `pipe`, with its two ends.
pub record Piped (t : Table) (r w : File) (in_end out_end : ℕ) (both : Table) : Type 0 where
  pub in_free : at t in_end ≡ none
  pub out_free : at t out_end ≡ none
  pub apart : in_end ≢ out_end
  pub read : at both in_end ≡ some r
  pub write : at both out_end ≡ some w
  pub others : (i : ℕ) → i ≢ in_end → i ≢ out_end → at both i ≡ at t i

open_lowest_here : (f : File) (t : Table) → at (open_lowest f t) (lowest t) ≡ some f
open_lowest_here f t = rw (at-open_lowest f (lowest t) t, ==_self (lowest t)) refl

open_lowest_other : (f : File) (t : Table) (i : ℕ) → i ≢ lowest t → at (open_lowest f t) i ≡ at t i
open_lowest_other f t i h = rw (at-open_lowest f i t, ==_ne i (lowest t) h) refl

pub pipe-Piped :
    (t : Table) (r w : File)
    → Piped t r w (lowest t) (lowest (open_lowest r t)) (open_lowest w (open_lowest r t))
pipe-Piped t r w =
    let half = open_lowest r t in
    let free : at half (lowest half) ≡ none = at-lowest half in
    let here : at half (lowest t) ≡ some r = open_lowest_here r t in
    let apart : lowest t ≢ lowest half = λ e. cc in
    record {
      in_free = at-lowest t;
      out_free = sym (open_lowest_other r t (lowest half) (λ e. apart (sym e))) ∙ free;
      apart = apart;
      read = open_lowest_other w half (lowest t) apart ∙ here;
      write = open_lowest_here w half;
      others = λ j a b. open_lowest_other w half j b ∙ open_lowest_other r t j a;
    }

module _ {base : Table} {i o : File} {t : Table} (s : Std base i o t) where
  ne-of-free : {f : File} (n j : ℕ) → at t n ≡ none → at t j ≡ some f → n ≢ j
  ne-of-free n j e e' same = let both : at t n ≡ at t j = ap (at t) same in cc

  pub free-ge : (n : ℕ) → at t n ≡ none → 2 ≤ n
  free-ge n e = let a = ne-of-free n 0 e s.input in let b = ne-of-free n 1 e s.output in omega arith

  -- What `pipe` leaves to its two sides.
  pub left-Std :
      {r w : File} {a b : ℕ} {both : Table}
      → Piped t r w a b both
      → Std base i w (move_end b 1 a both)
  left-Std {w} {a} {b} {both} p =
      let a0 = ne-of-free a 0 p.in_free s.input in
      let a1 = ne-of-free a 1 p.in_free s.output in
      let b0 = ne-of-free b 0 p.out_free s.input in
      let b1 = ne-of-free b 1 p.out_free s.output in
      let moved = λ (j : ℕ). at-move_end b 1 a j w both b1 p.write in
      record {
        input = moved 0 ∙ ground (arith, p.others 0, s.input);
        output = moved 1 ∙ ground arith;
        others = λ j h. moved j ∙ ground (arith, p.others j, s.others j, p.in_free, p.out_free);
      }

  pub right-Std :
      {r w : File} {a b : ℕ} {both : Table}
      → Piped t r w a b both
      → Std base r o (move_end a 0 b both)
  right-Std {r} {a} {b} {both} p =
      let a0 = ne-of-free a 0 p.in_free s.input in
      let a1 = ne-of-free a 1 p.in_free s.output in
      let b0 = ne-of-free b 0 p.out_free s.input in
      let b1 = ne-of-free b 1 p.out_free s.output in
      let moved = λ (j : ℕ). at-move_end a 0 b j r both a0 p.read in
      record {
        input = moved 0 ∙ ground arith;
        output = moved 1 ∙ ground (arith, p.others 1, s.output);
        others = λ j h. moved j ∙ ground (arith, p.others j, s.others j, p.in_free, p.out_free);
      }

  -- What an `open` leaves that takes the place of the input, or of the output.
  pub input-Std : (f : File) → Std base f o (open_lowest f (close 0 t))
  input-Std f =
      let first : lowest (close 0 t) ≡ 0 =
        omega (arith, ge-lowest (close 0 t) 0 (at-close 0 0 t)) in
      let entry = λ (j : ℕ). at-open_lowest f j (close 0 t) in
      record {
        input = entry 0 ∙ rw first refl;
        output = entry 1 ∙ rw first (at-close 0 1 t ∙ s.output);
        others = λ j h. entry j ∙ rw first (ground (arith, at-close 0 j t, s.others j));
      }

  pub output-Std : (f : File) → Std base i f (open_lowest f (close 1 t))
  output-Std f =
      let closed = close 1 t in
      let used : at closed 0 ≡ some i = at-close 1 0 t ∙ s.input in
      let below = ge-lowest closed 1 (at-close 1 1 t) in
      let above : lowest closed ≢ 0 =
        λ e. let free : at closed 0 ≡ none = ap (at closed) (sym e) ∙ at-lowest closed in cc in
      let second : lowest closed ≡ 1 = omega arith in
      let entry = λ (j : ℕ). at-open_lowest f j closed in
      record {
        input = entry 0 ∙ rw second used;
        output = entry 1 ∙ rw second refl;
        others = λ j h. entry j ∙ rw second (ground (arith, at-close 1 j t, s.others j));
      }
