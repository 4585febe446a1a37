-- ===== src/Shell/Run/Pipelines.antt =====
-- What `run_cmd` makes of a command, and of the command that a line spells.
use sysprog_solutions.Common.{
  [], ◌∷◌, zero, suc, ℕ, refl, true, false, inl, inr, List, ◌≡◌, Bool-cases, arith, ◌++◌, length,
  ◌+◌, ◌≤◌, append-nil, ltb, sym,
}
use sysprog_solutions.Shell.Lexer.{Text}
use sysprog_solutions.Shell.Syntax.{Command, exec, pipe, redirect}
use sysprog_solutions.Shell.Run.{
  run_pipe, run_exec, run_cmd, continue, World, Process, Table, End, child_name, next_name, fork,
  returned, on_table, buffer_size, move_end, bin, redirect_table, usr_bin, launched,
}
use sysprog_solutions.Shell.Run.Wiring.{
  path_of, Program, wiring, returns_of, Wired, Plenty, FoundFirst, Std, Works, Matches, launch, nil,
  continue-append, continue-launched, Single, Matches-append, continue-Matches, return,
}
use sysprog_solutions.Shell.Descriptors.{
  Table, File, write_end, read_end, lowest, open_lowest, close, opened,
}
use sysprog_solutions.Shell.Run.Tables.{pipe-Piped, left-Std, right-Std, input-Std, output-Std}

-- A program that is found is launched at its path, with the descriptors of the process.
pub run_exec_launched :
    (w : World) (argv : List Text) (p : Process)
    → FoundFirst w argv
    → (path : Text) × (run_exec w argv p ≡ launched path argv p.table ∷ []) × Program w argv path
unfolding run_exec path_of
run_exec_launched w [] p h = absurd h
run_exec_launched w (name ∷ args) p h = elim (Bool-cases (w.runs name)) [
  | inl first ↦ (name, rw first refl, (rw first refl, first))
  | inr missing ↦
      let short : length name ≤ 94 = elim h [
        | inl first ↦ cc
        | inr (inl (fits, found)) ↦ fits
        | inr (inr (fits, found)) ↦ omega arith
      ] in
      let room : ltb buffer_size (length bin + length name + 1) ≡ false = ground arith in
      elim (Bool-cases (w.runs (bin ++ name))) [
        | inl second ↦
            (bin ++ name, rw (missing, room, second) refl, (rw (missing, second) refl, second))
        | inr absent ↦
            let (fits, found) : (length name ≤ 90) × (w.runs (usr_bin ++ name) ≡ true) = elim h [
              | inl first ↦ cc
              | inr (inl (fits, found)) ↦ cc
              | inr (inr third) ↦ third
            ] in
            let room' : ltb buffer_size (length usr_bin + length name + 1) ≡ false = ground arith in
            (
              usr_bin ++ name,
              rw (missing, room, absent, room', found) refl,
              (rw (missing, absent) refl, found),
            )
      ]
]

run_exec-Matches :
    (w : World) (argv : List Text) (p : Process) {base : Table} {i o : File}
    → FoundFirst w argv
    → Std base i o p.table
    → Matches w base (run_exec w argv p) (record { argv = argv; input = i; output = o } ∷ []) 0
run_exec-Matches w argv p {i} {o} h s =
    let v : Wired = record { argv = argv; input = i; output = o } in
    let (path, e, at) = run_exec_launched w argv p h in rw e (launch {v = v} at s nil)

-- Where `fork` succeeds, and the child only launches programs, the parent goes on.
continue-fork :
    (w : World) (p : Process) (child k : Process → List End) {base : Table} {vs : List Wired}
    → Plenty w
    → Matches w base (child (record p { name = child_name p.name })) vs 0
    → continue (fork w p child) k
      ≡ child (record p { name = child_name p.name }) ++ k (record p { name = next_name p.name })
unfolding continue
continue-fork w p child k plenty m =
    let c = child (record p { name = child_name p.name }) in
    let q : Process = record p { name = next_name p.name } in
    rw
      (
        plenty.forks p,
        continue-append c (returned q ∷ []) k,
        continue-launched k m refl,
        append-nil (k q),
      )
      refl

-- The second fork, and what all processes that return do behind it.
pub continue-last :
    (w : World) (p : Process) (child : Process → List End) (f : Process → Process) {base : Table}
    {es : List End} {vs us : List Wired} {k : ℕ}
    → Plenty w
    → Matches w base es vs 0
    → Matches w base (child (record p { name = child_name p.name })) us k
    → Matches w base (continue (es ++ fork w p child) (λ q. returned (f q) ∷ [])) (vs ++ us) (suc k)
unfolding continue
continue-last w p child f {es} {us} {k} plenty l r =
    let c = child (record p { name = child_name p.name }) in
    let q : Process = record p { name = next_name p.name } in
    let e : suc k ≡ 0 + (k + 1) = omega arith in
    let e' : us ≡ us ++ [] = sym (append-nil us) in
    rw
      (
        plenty.forks p,
        continue-append es (c ++ returned q ∷ []) _,
        continue-append c (returned q ∷ []) _,
        e,
        e',
      )
      (Matches-append (continue-Matches f l) (Matches-append (continue-Matches f r) (return nil)))

run_pipe-Matches :
    (w : World) (left right : Process → List End) (p : Process) {base : Table} {i o : File}
    {vs us : List Wired} {k : ℕ}
    → Plenty w
    → Std base i o p.table
    → ((q : Process)
        → q.name ≡ child_name p.name
        → Std base i (write_end p.name) q.table
        → Matches w base (left q) vs 0)
    → ((q : Process)
        → q.name ≡ child_name (next_name p.name)
        → Std base (read_end p.name) o q.table
        → Matches w base (right q) us k)
    → Matches w base (run_pipe w left right p) (vs ++ us) (suc k)
unfolding run_pipe continue
run_pipe-Matches w left right p plenty s l r =
    let rd = read_end p.name in
    let wr = write_end p.name in
    let piped = pipe-Piped p.table rd wr in
    let in_end = lowest p.table in
    let out_end = lowest (open_lowest rd p.table) in
    let both : Process = record p { table = open_lowest wr (open_lowest rd p.table) } in
    let next : Process = record both { name = next_name p.name } in
    let left_child = λ (c : Process). left (on_table (move_end out_end 1 in_end) c) in
    let right_child = λ (c : Process). right (on_table (move_end in_end 0 out_end) c) in
    let second = λ (q : Process). fork w q right_child in
    let third = on_table (λ t. close out_end (close in_end t)) in
    let lefts = l _ refl (left-Std s piped) in
    let rights = r _ refl (right-Std s piped) in
    rw (plenty.pipes p, continue-fork w both left_child second plenty lefts)
      (continue-last w next right_child third plenty lefts rights)

pub returns-Single : (c : Command) → Single c → returns_of c ≡ 0
unfolding returns_of
returns-Single (exec argv) s = refl
returns-Single (pipe left right) s = absurd s
returns-Single (redirect c file mode fd) s = returns-Single c s

-- Where all that it uses works, `run_cmd` launches the programs of the command with the input and
-- output that the command means.
pub run_cmd-Matches :
    (w : World) (c : Command) (p : Process) {base : Table} {i o : File}
    → Plenty w
    → Works w c
    → Std base i o p.table
    → Matches w base (run_cmd w c p) (wiring c p.name i o) (returns_of c)
unfolding run_cmd wiring returns_of redirect_table
run_cmd-Matches w (exec argv) p plenty h s = run_exec-Matches w argv p h s
run_cmd-Matches w (redirect c file mode zero) p plenty (opens, std, h) s =
    rw opens (run_cmd-Matches w c _ plenty h (input-Std s (opened file mode)))
run_cmd-Matches w (redirect c file mode (suc zero)) p plenty (opens, std, h) s =
    rw opens (run_cmd-Matches w c _ plenty h (output-Std s (opened file mode)))
run_cmd-Matches w (redirect c file mode (suc (suc n))) p plenty (opens, std, h) s =
    absurd (omega arith)
run_cmd-Matches w (pipe left right) p {i} {o} plenty (single, h, g) s =
    run_pipe-Matches w (run_cmd w left) (run_cmd w right) p
      {vs = wiring left (child_name p.name) i (write_end p.name)}
      {us = wiring right (child_name (next_name p.name)) (read_end p.name) o} plenty s
      (λ q e std. rw (← e, ← returns-Single left single) (run_cmd-Matches w left q plenty h std))
      (λ q e std. rw (← e) (run_cmd-Matches w right q plenty g std))
