-- ===== src/Shell/Run/Tests.antt =====
-- Runs of commands, and the theorems on them at concrete lines.
use Prim.Native.Char.{code}
use Prim.Native.String.{String}
use sysprog_solutions.Common.{
  [], ◌∷◌, refl, some, none, true, false, Bool, inl, inr, List, replicate, ◌||◌, arith, ◌≡◌,
  Ensures, ◌==◌, ◌&&◌,
}
use sysprog_solutions.Shell.Syntax.{exec, pipe, redirect, IsStage, Stage, Command}
use sysprog_solutions.Shell.Run.{
  World, run_exec, Process, run_cmd, redirect_table, Text, faulted, Command, launched,
}
use sysprog_solutions.Shell.Run.Rounds.{
  line, change_directory, main_loop, launches_of, processes_of, Round,
}
use sysprog_solutions.Shell.Run.Rounds.Counts.{launches, exits, main_loop_ends}
use sysprog_solutions.Common.{total, length, ◌+◌}
use sysprog_solutions.Shell.Run.{continue, run_pipe}
use sysprog_solutions.Shell.Syntax.{pipe}
use sysprog_solutions.Shell.Run.Lines.{pipeline, input_of, output_of, parse_command-run_cmd}
use sysprog_solutions.Shell.Descriptors.{
  ProcessName, inherited, close, Table, write_end, open_lowest, read_end, opened, at,
}
use sysprog_solutions.Shell.Run.Wiring.{Program, Std, Plenty, wiring, returns_of, Matches}
use sysprog_solutions.Shell.Input.{scan_all, flat, AllLines, scan_all-flat}
use sysprog_solutions.Shell.Heap.{wronly_creat_trunc, rdonly, OpenMode}
use sysprog_solutions.Shell.Run.Failures.{run_exec_bounds, run_cmd_twice, run_cmd_no_input}
use sysprog_solutions.Shell.Command.{Denotes}
use sysprog_solutions.Shell.Parser.{parse_command}

abbrev codes : String → Text
codes String.[] = []
codes (String.◌∷◌ c s) = code c ∷ codes s

abbrev is_write : OpenMode → Bool
is_write rdonly = false
is_write wronly_creat_trunc = true

abbrev equal : Text → Text → Bool
equal [] [] = true
equal [] (d ∷ t) = false
equal (c ∷ s) [] = false
equal (c ∷ s) (d ∷ t) = (c == d) && equal s t

abbrev is : String → Text → Bool
is s t = equal t (codes s)

-- `/bin/ls`, `/bin/cat` and the file `in` are there, and every file can be written.
abbrev machine : World
machine = record {
  runs = λ path. is "/bin/ls" path || is "/bin/cat" path;
  opens = λ file mode. is_write mode || is "in" file;
  pipes = λ p. true;
  forks = λ p. true;
}

-- The shell's process, with a terminal for its input, output and messages.
abbrev shell : Process
shell = record {
  name = record { pid = []; forks = 0 };
  table = some (inherited 0) ∷ some (inherited 1) ∷ some (inherited 2) ∷ [];
}

run_cat :
    run_cmd machine (redirect (exec (codes "cat" ∷ [])) (codes "in") rdonly 0) shell
    ≡ launched
        (codes "/bin/cat")
        (codes "cat" ∷ [])
        (some (opened (codes "in") rdonly) ∷ some (inherited 1) ∷ some (inherited 2) ∷ [])
      ∷ []
unfolding run_cmd run_exec redirect_table close open_lowest
run_cat = refl

shell-Std : Std shell.table (inherited 0) (inherited 1) shell.table
shell-Std = record { input = refl; output = refl; others = λ n h. refl }

machine-Plenty : Plenty machine
machine-Plenty = record { pipes = λ p. refl; forks = λ p. refl }

abbrev plain : Text → Stage
plain w = record {
  arguments = record { before = []; word = w; redirections = [] } ∷ [];
  after = b' ' ∷ [];
}

plain_ls-IsStage : IsStage (plain (codes "ls"))
plain_ls-IsStage = record { start = ground arith; few = omega arith; blank = ground arith }

plain_cat-IsStage : IsStage (plain (codes "cat"))
plain_cat-IsStage = record { start = ground arith; few = omega arith; blank = ground arith }

abbrev first_pipe : ProcessName
first_pipe = record { pid = []; forks = 0 }

parse_command-run_cmd_example :
    Ensures
      (λ q st.
        (c : Command) × Denotes st.heap q c
        × Matches machine shell.table
            (run_cmd machine c shell)
            (record { argv = codes "ls" ∷ []; input = inherited 0; output = write_end first_pipe }
              ∷ record {
                argv = codes "cat" ∷ [];
                input = read_end first_pipe;
                output = inherited 1;
              }
              ∷ [])
            1)
      (λ _. ⊥)
      (parse_command (codes "ls |cat "))
unfolding pipeline input_of output_of
parse_command-run_cmd_example =
    parse_command-run_cmd machine (plain (codes "ls")) (plain (codes "cat") ∷ []) shell
      plain_ls-IsStage (plain_cat-IsStage, tt) machine-Plenty
      (inr (inl (omega arith, refl)), tt, (inr (inl (omega arith, refl)), tt, tt)) shell-Std

run_cmd_no_input_example :
    (path : Text) × (t : Table) × (run_cmd machine
        (redirect
          (redirect (exec (codes "cat" ∷ [])) (codes "o") wronly_creat_trunc 1)
          (codes "x")
          rdonly
          0)
        shell
      ≡ launched path (codes "cat" ∷ []) t ∷ [])
    × Program machine (codes "cat" ∷ []) path
    × (at t 0 ≡ some (opened (codes "o") wronly_creat_trunc))
    × (at t 1 ≡ none)
run_cmd_no_input_example =
    run_cmd_no_input machine (codes "cat" ∷ []) (codes "o") (codes "x") shell
      (inr (inl (omega arith, refl))) refl refl shell-Std

run_exec_bounds_example : run_exec machine (replicate 91 120 ∷ []) shell ≡ faulted ∷ []
run_exec_bounds_example = run_exec_bounds machine (replicate 91 120) [] shell refl refl refl

run_cmd_twice_example :
    Matches machine shell.table
      (run_cmd machine (pipe (exec (codes "lss" ∷ [])) (exec (codes "cat" ∷ []))) shell)
      (record { argv = codes "cat" ∷ []; input = inherited 0; output = write_end first_pipe }
        ∷ record { argv = codes "cat" ∷ []; input = read_end first_pipe; output = inherited 1 }
        ∷ [])
      2
unfolding wiring returns_of
run_cmd_twice_example =
    run_cmd_twice machine (codes "lss") [] (exec (codes "cat" ∷ [])) shell machine-Plenty
      (omega arith, refl, refl, refl) (inr (inl (omega arith, refl))) shell-Std

scan_all-flat_example :
    (lines : List Text) × (scan_all 9 4 (codes "a b\ncd") ≡ some lines)
    × (flat lines ≡ codes "a b\ncd")
    × AllLines 4 lines
scan_all-flat_example = scan_all-flat 9 2 (codes "a b\ncd") (ground arith) (omega arith)

-- A pipeline, and a program behind it that is launched twice.
abbrev rounds : List Round
rounds =
    line (pipe (exec (codes "ls" ∷ [])) (exec (codes "cat" ∷ [])))
    ∷ change_directory
    ∷ line (exec (codes "ls" ∷ []))
    ∷ []

rounds_launched : total launches (main_loop machine rounds shell) ≡ 4
unfolding total main_loop run_cmd run_exec run_pipe continue
rounds_launched = refl

main_loop_ends_example :
    (total launches (main_loop machine rounds shell) ≡ launches_of rounds)
    × (total exits (main_loop machine rounds shell) ≡ processes_of rounds)
    × (length (main_loop machine rounds shell) ≡ launches_of rounds + processes_of rounds)
main_loop_ends_example = main_loop_ends machine rounds shell machine-Plenty (
  (tt, inr (inl (omega arith, refl)), inr (inl (omega arith, refl))),
  (inr (inl (omega arith, refl)), tt),
)
