-- ===== src/Shell/Run/Failures.antt =====
-- `run_cmd` where a system call fails.
use sysprog_solutions.Common.{
  [], ◌∷◌, some, none, suc, ℕ, refl, true, false, length, List, ◌≤◌, ◌≡◌, ◌<◌, ltb, ◌++◌, ◌+◌,
  arith, ◌∙◌, ◌==◌, if◌then◌else◌, sym, append-nil,
}
use sysprog_solutions.Shell.Lexer.{Text}
use sysprog_solutions.Shell.Syntax.{Command, exec, pipe, redirect}
use sysprog_solutions.Shell.Run.{
  run_cmd, run_exec, World, redirect_table, Process, bin, returned, move_end, faulted, usr_bin,
  buffer_size, launched, run_pipe, continue, child_name, next_name, on_table, fork,
}
use sysprog_solutions.Shell.Descriptors.{
  dup2, Table, File, at, opened, close, open_lowest, at-close, lowest, ge-lowest, at-open_lowest,
  write_end, read_end,
}
use sysprog_solutions.Shell.Run.Wiring.{
  Program, Std, FoundFirst, Plenty, Works, Matches, wiring, returns_of, nil, continue-append,
  Matches-append,
}
use sysprog_solutions.Shell.Heap.{wronly_creat_trunc, rdonly}
use sysprog_solutions.Shell.Run.Pipelines.{run_exec_launched, continue-last, run_cmd-Matches}
use sysprog_solutions.Shell.Run.Tables.{pipe-Piped, left-Std, right-Std, free-ge}
use native.Mathlib.Decide.{dec_lt}

-- A command with first a `>` that can be opened and then a `<` that cannot, whose program is found:
-- the program is launched at its path all the same, with the file behind the `>` as its input, and
-- without an output.
pub run_cmd_no_input :
    (w : World) (argv : List Text) (target missing : Text) (p : Process) {base : Table} {i o : File}
    → FoundFirst w argv
    → w.opens target wronly_creat_trunc ≡ true
    → w.opens missing rdonly ≡ false
    → Std base i o p.table
    → (path : Text) × (t : Table) × (run_cmd w
          (redirect (redirect (exec argv) target wronly_creat_trunc 1) missing rdonly 0)
          p
        ≡ launched path argv t ∷ [])
      × Program w argv path
      × (at t 0 ≡ some (opened target wronly_creat_trunc))
      × (at t 1 ≡ none)
unfolding run_cmd redirect_table
run_cmd_no_input w argv target missing p found opens fails s =
    let f = opened target wronly_creat_trunc in
    let half = close 0 p.table in
    let closed = close 1 half in
    let t = open_lowest f closed in
    let (path, e, at_path) = run_exec_launched w argv (record p { table = t }) found in
    let free : at closed 0 ≡ none = at-close 1 0 half ∙ at-close 0 0 p.table in
    let first : lowest closed ≡ 0 = omega (arith, ge-lowest closed 0 free) in
    (
      path,
      t,
      rw (opens, fails) e,
      at_path,
      at-open_lowest f 0 closed ∙ rw first refl,
      at-open_lowest f 1 closed ∙ rw first (at-close 1 1 half),
    )

-- Not found in any of the three places, and short enough to be looked for in all of them.
abbrev pub Missing : World → Text → Type 0
Missing w name =
    (length name ≤ 90)
    × (w.runs name ≡ false)
    × (w.runs (bin ++ name) ≡ false)
    × (w.runs (usr_bin ++ name) ≡ false)

-- A process whose program is not found goes on with the code behind `run_cmd`.
run_exec-Missing :
    (w : World) (name : Text) (args : List Text) (p : Process)
    → Missing w name
    → run_exec w (name ∷ args) p ≡ returned p ∷ []
unfolding run_exec
run_exec-Missing w name args p (short, a, b, c) =
    let first : ltb buffer_size (length bin + length name + 1) ≡ false = ground arith in
    let second : ltb buffer_size (length usr_bin + length name + 1) ≡ false = ground arith in
    rw (a, first, b, second, c) refl

-- Where the name of a program is found in none of the three places, `strcat` overruns one of the
-- two buffers if the name has more than 90 bytes; a process with a shorter one goes on with the code
-- behind `run_cmd`.
pub run_exec_bounds :
    (w : World) (name : Text) (args : List Text) (p : Process)
    → w.runs name ≡ false
    → w.runs (bin ++ name) ≡ false
    → w.runs (usr_bin ++ name) ≡ false
    → run_exec w (name ∷ args) p ≡ (if ltb 90 (length name) then faulted ∷ [] else returned p ∷ [])
unfolding run_exec
run_exec_bounds w name args p a b c = elim (dec_lt 90 (length name)) [
  | no short ↦
      let fits : ltb 90 (length name) ≡ false = ground arith in
      rw fits (run_exec-Missing w name args p (omega arith, a, b, c))
  | yes long ↦
      let over : ltb 90 (length name) ≡ true = ground arith in
      let second : ltb buffer_size (length usr_bin + length name + 1) ≡ true = ground arith in
      elim (dec_lt 94 (length name)) [
        | yes longer ↦
            let first : ltb buffer_size (length bin + length name + 1) ≡ true = ground arith in
            rw (over, a, first) refl
        | no not_longer ↦
            let first : ltb buffer_size (length bin + length name + 1) ≡ false = ground arith in
            rw (over, a, first, b, second) refl
      ]
]

-- The closes and the failing `dup2` in a process that has neither end of the pipe.
move_end-Std :
    {base : Table} {i o : File} (fd std other : ℕ) (t : Table)
    → Std base i o t
    → 2 ≤ fd
    → 2 ≤ other
    → at t fd ≡ none
    → at t other ≡ none
    → std < 2
    → Std base i o (move_end fd std other t)
unfolding dup2
move_end-Std fd std other t s a b e e' small =
    let apart : (fd == std) ≡ false = ground arith in
    let entry : (j : ℕ)
        → at (close other (close fd t)) j
          ≡ (if j == other then none else if j == fd then none else at t j) =
      λ j. at-close other j (close fd t) ∙ rw (at-close fd j t) refl in
    rw (apart, e)
      (record {
        input = entry 0 ∙ ground (arith, s.input);
        output = entry 1 ∙ ground (arith, s.output);
        others = λ n h. entry n ∙ ground (arith, s.others n);
      })

-- A pipe whose left program is not found runs its right side twice: also in the left child, which
-- goes on behind its `if`. There the right side reads the shell's input and writes into the pipe,
-- and each of the two runs leaves one more process than the right side alone.
pub run_cmd_twice :
    (w : World) (name : Text) (args : List Text) (right : Command) (p : Process) {base : Table}
    {i o : File}
    → Plenty w
    → Missing w name
    → Works w right
    → Std base i o p.table
    → Matches w base
        (run_cmd w (pipe (exec (name ∷ args)) right) p)
        (wiring right (child_name (child_name p.name)) i (write_end p.name)
          ++ wiring right (child_name (next_name p.name)) (read_end p.name) o)
        (suc (returns_of right) + suc (returns_of right))
unfolding run_cmd run_pipe continue
run_cmd_twice w name args right p {base} {i} {o} plenty missing works s =
    let rd = read_end p.name in
    let wr = write_end p.name in
    let piped = pipe-Piped p.table rd wr in
    let in_end = lowest p.table in
    let out_end = lowest (open_lowest rd p.table) in
    let both : Process = record p { table = open_lowest wr (open_lowest rd p.table) } in
    let child : Process = record {
      name = child_name p.name;
      table = move_end out_end 1 in_end both.table;
    } in
    let next : Process = record both { name = next_name p.name } in
    let right_child = λ (c : Process). run_cmd w right (on_table (move_end in_end 0 out_end) c) in
    let third = on_table (λ t. close out_end (close in_end t)) in
    let std = left-Std s piped in
    let apart_in = free-ge s in_end piped.in_free in
    let apart_out = free-ge s out_end piped.out_free in
    let closed_in = std.others in_end apart_in ∙ sym (s.others in_end apart_in) ∙ piped.in_free in
    let closed_out =
      std.others out_end apart_out ∙ sym (s.others out_end apart_out) ∙ piped.out_free in
    let kept : Std base i wr (move_end in_end 0 out_end child.table) =
      move_end-Std in_end 0 out_end child.table std apart_in apart_out closed_in closed_out
        (omega arith) in
    let first = continue-last w child right_child third plenty nil (
      run_cmd-Matches w right
        (record child {
          name = child_name child.name;
          table = move_end in_end 0 out_end child.table;
        })
        plenty works kept) in
    let second =
      continue-last w next right_child third plenty nil
        (run_cmd-Matches w right _ plenty works (right-Std s piped)) in
    rw (plenty.pipes p, plenty.forks both, run_exec-Missing w name args child missing)
      (rw
        (
          append-nil (fork w next right_child),
          continue-append (fork w child right_child) (fork w next right_child)
              (λ q. returned (third q) ∷ []),
        )
        (Matches-append first second))
