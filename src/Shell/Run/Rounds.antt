-- ===== src/Shell/Run/Rounds.antt =====
-- The main of src/shell/shell_main.c behind the input and the parser: a round for each line.
pub mod Counts
pub mod Forks
use sysprog_solutions.Common.{
  ℕ, suc, [], ◌∷◌, List, ◌≡◌, ◌+◌, ◌*◌, total, total-append, arith, refl, ◌∙◌, ap,
}
use sysprog_solutions.Shell.Syntax.{Command, exec, pipe, redirect}
use sysprog_solutions.Shell.Run.{
  World, Process, End, launched, exited, faulted, returned, continue, fork, run_cmd, run_pipe,
  child_name, next_name, lowest, Text, on_table, move_end,
}
use sysprog_solutions.Shell.Run.Pipelines.{run_exec_launched, returns-Single}
use sysprog_solutions.Shell.Run.Wiring.{Works, Plenty, returns_of}
use sysprog_solutions.Shell.Descriptors.{lowest, open_lowest, Table, read_end, close, write_end}

-- A line that begins with `cd `, or the command that the parser makes of it.
pub data Round : Type 0 where
  change_directory : Round
  line : Command → Round

-- The rounds of the loop for the lines that are left, all of which are in the buffer of stdin when
-- the process forks. A child in which `run_cmd` returns waits, and goes on with the next line.
unfoldable pub main_loop : World → List Round → Process → List End
main_loop w [] p = exited 0 ∷ []
main_loop w (change_directory ∷ rs) p = main_loop w rs p
main_loop w (line c ∷ rs) p = continue (fork w p (run_cmd w c)) (main_loop w rs)

abbrev pub programs_of : Command → ℕ
programs_of (exec argv) = 1
programs_of (redirect c file mode fd) = programs_of c
programs_of (pipe left right) = programs_of left + programs_of right

-- The processes that are in the loop behind its last line.
abbrev pub processes_of : List Round → ℕ
processes_of [] = 1
processes_of (change_directory ∷ rs) = processes_of rs
processes_of (line c ∷ rs) = suc (returns_of c) * processes_of rs

-- The programs that they launch: those of each line, once for each process that reads it.
abbrev pub launches_of : List Round → ℕ
launches_of [] = 0
launches_of (change_directory ∷ rs) = launches_of rs
launches_of (line c ∷ rs) = programs_of c + suc (returns_of c) * launches_of rs

abbrev pub AllWork : World → List Round → Type 0
AllWork w [] = Unit
AllWork w (change_directory ∷ rs) = AllWork w rs
AllWork w (line c ∷ rs) = Works w c × AllWork w rs
