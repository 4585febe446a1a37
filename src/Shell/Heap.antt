-- ===== src/Shell/Heap.antt =====
-- The command nodes of src/shell/shell.h on the C heap, and the allocators of shell.c.
-- A `command *` is the position of its node; `malloc` is taken to succeed, as shell.c does.
pub mod Valid
use sysprog_solutions.Common.{
  ℕ, List, [], ◌∷◌, ◌++◌, Option, none, some, ltb, if◌then◌else◌, length, get_elem?, set, replicate,
  Cmd, ok, err, Outcome,
}
use sysprog_solutions.Shell.Lexer.{Text, TokenType, input, Peek, peek, Token, gettoken}

abbrev pub max_args : ℕ
max_args = 6

-- `O_RDONLY`, and `O_WRONLY | O_CREAT | O_TRUNC`
pub data OpenMode : Type 0 where
  rdonly wronly_creat_trunc : OpenMode

-- CMD_EXEC, CMD_PIPE and CMD_REDIRECT with the fields of their structs.
pub data Node : Type 0 where
  exec : List (Option Text) → Node
  pipe : (left right : ℕ) → Node
  redirect : (cmd : ℕ) → (file : Text) → (mode : OpenMode) → (fd : ℕ) → Node

abbrev pub Heap : Type 0
Heap = List Node

-- The ways in which parsing ends the process. `fault` is undefined behaviour.
pub data Exit : Type 0 where
  no_redirection_arg syntax_error too_many_args symbols_remained fault out_of_fuel : Exit

-- `*pp_str`, and the nodes allocated so far.
pub record Parse : Type 0 where
  pub cursor : Text
  pub heap : Heap

abbrev pub Parser : Type 0 → Type 0
Parser A = Cmd Exit Parse A

abbrev pub peek_in : Text → Parser Peek
peek_in toks st = let p = peek st.cursor toks in ok (p, record st { cursor = p.rest })

abbrev pub next_token : Parser Token
next_token st = let t = gettoken st.cursor in ok (t, record st { cursor = t.rest })

abbrev pub alloc : Node → Parser ℕ
alloc n st = ok (length st.heap, record st { heap = st.heap ++ n ∷ [] })

unfoldable pub command_create_exec : Parser ℕ
command_create_exec = alloc (exec (replicate max_args none))

unfoldable pub command_create_pipe : ℕ → ℕ → Parser ℕ
command_create_pipe left right = alloc (pipe left right)

abbrev pub open_mode : TokenType → OpenMode
open_mode input = rdonly
open_mode _ = wronly_creat_trunc

abbrev pub target_fd : TokenType → ℕ
target_fd input = 0
target_fd _ = 1

unfoldable pub command_create_redirect : ℕ → Text → TokenType → Parser ℕ
command_create_redirect subcmd file mode =
    alloc (redirect subcmd file (open_mode mode) (target_fd mode))

-- `argv[i] = v` in the node that a `command_exec *` points to: undefined if the node is no
-- `command_exec`, or if `i` is past the end of the array.
unfoldable pub set_argv :
    Option Node → ℕ → ℕ → Option Text → Parse → Outcome Exit (Unit {0} × Parse)
set_argv (some (exec argv)) p i v st =
    if ltb i (length argv)
    then ok (tt, record st { heap = set st.heap p (exec (set argv i v)) })
    else err fault
set_argv _ p i v st = err fault

abbrev pub store_arg : ℕ → ℕ → Option Text → Parser (Unit {0})
store_arg p i v st = set_argv (get_elem? st.heap p) p i v st
