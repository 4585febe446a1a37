-- ===== src/Shell/Tests.antt =====
-- Runs of the parser, and the theorems of Shell at concrete lines.
use Prim.Native.Char.{code}
use Prim.Native.String.{String}
use sysprog_solutions.Shell.Syntax.{
  Command, Argument, Redirection, Stage, to, IsStage, Argument, IsStage, Stage, Redirection,
}
use sysprog_solutions.Shell.Command.{Denotes, Denotes}
use sysprog_solutions.Common.{[], ◌∷◌, none, some, ◌≡◌, refl, ok, err, Ensures, ◌≢◌, arith, ℕ}
use sysprog_solutions.Shell.OpenMax.{limited, failed, Agree, Unlimited, twice, open_max-open_max}
use sysprog_solutions.Shell.Lexer.{Text, gettoken, peek, c_string, mkcopy}
use sysprog_solutions.Shell.Heap.{
  exec, pipe, redirect, wronly_creat_trunc, fault, set_argv, command_create_exec,
  command_create_pipe, command_create_redirect,
}
use sysprog_solutions.Shell.Parser.{parse_command, parse_exec}
use sysprog_solutions.Shell.Parser.Safety.{parse_command_total}
use sysprog_solutions.Shell.Heap.Valid.{Valid}
use sysprog_solutions.Shell.Parser.Invariant.{Expected}
use sysprog_solutions.Shell.Parser.NoFault.{parse_exec-NotFault}
use sysprog_solutions.Shell.Parser.Accepts.{parse_command-meaning}
use sysprog_solutions.Shell.Parser.LeadingRedirection.{parse_command-redirect_first}

abbrev codes : String → Text
codes String.[] = []
codes (String.◌∷◌ c s) = code c ∷ codes s

parse_pipeline :
    parse_command (codes "ls -l > o|wc\n")
    ≡ ok (
      3,
      record {
        cursor = [];
        heap =
            exec (some (codes "ls") ∷ some (codes "-l") ∷ none ∷ none ∷ none ∷ none ∷ [])
            ∷ redirect 0 (codes "o") wronly_creat_trunc 1
            ∷ exec (some (codes "wc") ∷ none ∷ none ∷ none ∷ none ∷ none ∷ [])
            ∷ pipe 1 2
            ∷ [];
      },
    )
unfolding parse_command set_argv command_create_exec command_create_pipe command_create_redirect
    c_string peek gettoken mkcopy
parse_pipeline = refl

redirect_first : parse_command (codes "<in cat") ≡ err fault
unfolding parse_command set_argv command_create_exec command_create_pipe command_create_redirect
    c_string peek gettoken mkcopy
redirect_first = refl

abbrev gap : Text
gap = b' ' ∷ []

abbrev plain : Text → Argument
plain w = record { before = gap; word = w; redirections = [] }

abbrev output_to : Text → Redirection
output_to f = record { before = gap; direction = to; between = gap; file = f }

-- "ls -l > o | wc "
abbrev list_files : Stage
list_files = record {
  arguments =
      record { before = []; word = codes "ls"; redirections = [] }
      ∷ record { before = gap; word = codes "-l"; redirections = output_to (codes "o") ∷ [] }
      ∷ [];
  after = gap;
}

abbrev count_lines : Stage
count_lines = record { arguments = plain (codes "wc") ∷ []; after = gap }

list_files-IsStage : IsStage list_files
list_files-IsStage = record { start = ground arith; few = omega arith; blank = ground arith }

count_lines-IsStage : IsStage count_lines
count_lines-IsStage = record { start = ground arith; few = omega arith; blank = ground arith }

parse_command-meaning_example :
    Ensures
      (λ q st. Denotes st.heap q (
        Command.pipe
          (Command.redirect
            (Command.exec (codes "ls" ∷ codes "-l" ∷ []))
            (codes "o")
            wronly_creat_trunc
            1)
          (Command.exec (codes "wc" ∷ []))))
      (λ _. ⊥)
      (parse_command (codes "ls -l > o | wc "))
parse_command-meaning_example =
    parse_command-meaning list_files (count_lines ∷ []) list_files-IsStage (count_lines-IsStage, tt)

parse_command_total_example :
    Ensures
      (λ p st. (st.cursor ≡ []) × Valid st.heap × ((c : Command) × Denotes st.heap p c))
      Expected
      (parse_command (codes "cat > o"))
parse_command_total_example = parse_command_total (codes "cat > o")

parse_command-redirect_first_example : Ensures (λ _ _. ⊥) Expected (parse_command (codes "<in cat"))
unfolding peek c_string
parse_command-redirect_first_example = parse_command-redirect_first (codes "<in cat") refl

parse_exec-NotFault_example :
    Ensures
      (λ _ _. Unit {0})
      (λ e. e ≢ fault)
      (parse_exec 9 (record { cursor = codes "cat > o"; heap = [] }))
unfolding peek
parse_exec-NotFault_example =
    parse_exec-NotFault 8 (record { cursor = codes "cat > o"; heap = [] }) refl

open_max-open_max_example :
    Ensures
      (Agree (limited 1024) 0)
      (λ e. (◌≡◌ {A = ℕ} 0 0) × Unlimited (limited 1024) e)
      (twice (limited 1024) failed 0)
open_max-open_max_example = open_max-open_max (limited 1024) failed 0 (omega arith)
