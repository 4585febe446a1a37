-- ===== src/Shell/Run.antt =====
-- `run_cmd` of src/shell/shell.c. The process forks, so that a run has several ends: each process
-- runs a program, exits, or returns from `run_cmd` and goes on with the code behind the call.
pub mod Wiring
pub mod Failures
pub mod Lines
pub mod Rounds
pub mod Pipelines
pub mod Tables
mod Tests
use sysprog_solutions.Common.{
  [], ◌∷◌, some, none, ℕ, Bool, List, if◌then◌else◌, ◌+◌, ◌++◌, ◌==◌, ltb, length,
}
use sysprog_solutions.Shell.Lexer.{Text}
use sysprog_solutions.Shell.Syntax.{Command, exec, pipe, redirect}
use sysprog_solutions.Shell.Descriptors.{
  Table, ProcessName, close, lowest, open_lowest, dup2, read_end, opened, write_end,
}
use sysprog_solutions.Shell.Heap.{OpenMode}

pub record Process : Type 0 where
  pub name : ProcessName
  pub table : Table

-- The system calls that may fail: which paths `execv` runs, which files `open` opens, and in which
-- processes `pipe` and `fork` succeed.
pub record World : Type 0 where
  pub runs : Text → Bool
  pub opens : Text → OpenMode → Bool
  pub pipes : Process → Bool
  pub forks : Process → Bool

-- The end of a process in a run: the program at a path, with its arguments and descriptors; an exit
-- status; undefined behaviour; or the return from the code that was run.
pub data End : Type 0 where
  launched : Text → List Text → Table → End
  exited : ℕ → End
  faulted : End
  returned : Process → End

-- Each process that returns goes on with `k`.
abbrev pub and_each : End → (Process → List End) → List End
and_each (launched path argv t) k = launched path argv t ∷ []
and_each (exited status) k = exited status ∷ []
and_each faulted k = faulted ∷ []
and_each (returned p) k = k p

pub continue : List End → (Process → List End) → List End
continue [] k = []
continue (e ∷ es) k = and_each e k ++ continue es k

abbrev pub on_table : (Table → Table) → Process → Process
on_table f p = record p { table = f p.table }

abbrev pub child_name : ProcessName → ProcessName
child_name n = record { pid = n.forks ∷ n.pid; forks = 0 }

abbrev pub next_name : ProcessName → ProcessName
next_name n = record n { forks = n.forks + 1 }

-- `if (fork() == 0) { child }`: the parent goes on, also where `fork` fails.
abbrev pub fork : World → Process → (Process → List End) → List End
fork w p child =
    (if w.forks p then child (record p { name = child_name p.name }) else [])
    ++ returned (record p { name = next_name p.name }) ∷ []

-- `char str[100] = prefix; strcat(str, name);`
abbrev pub buffer_size : ℕ
buffer_size = 100

abbrev pub bin : Text
bin = b'/' ∷ b'b' ∷ b'i' ∷ b'n' ∷ b'/' ∷ []

abbrev pub usr_bin : Text
usr_bin = b'/' ∷ b'u' ∷ b's' ∷ b'r' ∷ b'/' ∷ b'b' ∷ b'i' ∷ b'n' ∷ b'/' ∷ []

-- `execv(strcat(str, name), argv)`, and what follows where it returns.
abbrev pub exec_in : World → Text → Text → List Text → Process → List End → List End
exec_in w prefix name argv p otherwise =
    if ltb buffer_size (length prefix + length name + 1)
    then faulted ∷ []
    else if w.runs (prefix ++ name)
    then launched (prefix ++ name) argv p.table ∷ []
    else otherwise

-- The case of CMD_EXEC.
pub run_exec : World → List Text → Process → List End
run_exec w [] p = exited 0 ∷ []
run_exec w (name ∷ args) p =
    let argv = name ∷ args in
    if w.runs name
    then launched name argv p.table ∷ []
    else exec_in w bin name argv p (exec_in w usr_bin name argv p (returned p ∷ []))

-- `if (fd != std) { dup2(fd, std); close(fd); } close(other);`
abbrev pub move_end : ℕ → ℕ → ℕ → Table → Table
move_end fd std other t = close other (if fd == std then t else close fd (dup2 fd std t))

-- The case of CMD_PIPE, with what the two children run. A child in which `run_cmd` returns goes on
-- behind its `if`. `wait` changes nothing here.
pub run_pipe : World → (Process → List End) → (Process → List End) → Process → List End
run_pipe w left right p =
    let in_end = lowest p.table in
    let half = open_lowest (read_end p.name) p.table in
    let out_end = lowest half in
    let both = record p { table = open_lowest (write_end p.name) half } in
    let second = λ (q : Process). fork w q (λ c. right (on_table (move_end in_end 0 out_end) c)) in
    let third = λ (q : Process). returned (on_table (λ t. close out_end (close in_end t)) q) ∷ [] in
    if w.pipes p
    then continue
        (continue (fork w both (λ c. left (on_table (move_end out_end 1 in_end) c))) second) third
    else exited 100 ∷ []

-- `close(cmdr->fd)` and `open`, which takes the lowest free descriptor; where it fails, it only
-- prints.
pub redirect_table : World → Text → OpenMode → ℕ → Table → Table
redirect_table w file mode fd t =
    let closed = close fd t in
    if w.opens file mode then open_lowest (opened file mode) closed else closed

-- The tests of `run_cmd` for NULL and for another type have no case here: the parser makes neither.
pub run_cmd : World → Command → Process → List End
unfolding run_exec run_pipe
run_cmd w (exec argv) p = run_exec w argv p
run_cmd w (pipe left right) p = run_pipe w (run_cmd w left) (run_cmd w right) p
run_cmd w (redirect cmd file mode fd) p = run_cmd w cmd (on_table (redirect_table w file mode fd) p)
