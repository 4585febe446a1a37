-- ===== src/Shell/Parser.antt =====
-- The recursive-descent parser of src/shell/shell.c. Its loops and `parse_pipe` take fuel;
-- `parse_command` gives one round more than the line has bytes.
pub mod Invariant
mod Redirections
mod Stages
pub mod Accepts
pub mod LeadingRedirection
pub mod NoFault
pub mod Safety
use sysprog_solutions.Common.{
  ℕ, zero, suc, ◌+◌, Bool, true, false, not, [], ◌∷◌, none, some, leb, if◌then◌else◌, length, pure,
  raise, ◌>>=◌, ◌>>◌, Outcome,
}
use sysprog_solutions.Shell.Lexer.{
  Text, TokenType, letter, input, output, c_string, mkcopy, is_invalid,
}
use sysprog_solutions.Shell.Heap.{
  max_args, Exit, no_redirection_arg, syntax_error, too_many_args, symbols_remained, out_of_fuel,
  Parse, Parser, peek_in, next_token, command_create_exec, command_create_pipe,
  command_create_redirect, store_arg,
}

abbrev is_letter_token : TokenType → Bool
is_letter_token letter = true
is_letter_token _ = false

abbrev pub redirections : Text
redirections = b'<' ∷ b'>' ∷ []

abbrev pub bar : Text
bar = b'|' ∷ []

-- The `switch` of `parse_redirects`; its default case only prints.
pub redirect_case : TokenType → ℕ → Text → Parser ℕ
redirect_case input cmd file = command_create_redirect cmd (mkcopy file) input
redirect_case output cmd file = command_create_redirect cmd (mkcopy file) output
redirect_case _ cmd file = pure cmd

pub parse_redirects : ℕ → ℕ → Parser ℕ
unfolding redirect_case
parse_redirects zero cmd = raise out_of_fuel
parse_redirects (suc k) cmd = do
  p ← peek_in redirections
  if not p.found then pure cmd else do
    tok ← next_token
    arg ← next_token
    if is_invalid arg.type
        then raise no_redirection_arg
        else do cmd' ← redirect_case tok.type cmd arg.text; parse_redirects k cmd'

-- The `while` loop of `parse_exec`, over `cmd` and `argc`. `cmde` does not change in it.
pub exec_loop : ℕ → ℕ → ℕ → ℕ → Parser (ℕ × ℕ)
unfolding parse_redirects
exec_loop zero cmde cmd argc = raise out_of_fuel
exec_loop (suc k) cmde cmd argc = do
  p ← peek_in bar
  if p.found then pure (cmd, argc) else do
    tok ← next_token
    if is_invalid tok.type
        then pure (cmd, argc)
        else if not (is_letter_token tok.type)
        then raise syntax_error
        else do
          store_arg cmde argc (some (mkcopy tok.text))
          if leb max_args (argc + 1)
              then raise too_many_args
              else do cmd' ← parse_redirects k cmd; exec_loop k cmde cmd' (argc + 1)

-- `cmde` is the result of the first `parse_redirects`, cast to `command_exec *`.
pub parse_exec : ℕ → Parser ℕ
unfolding exec_loop
parse_exec fuel = do
  new ← command_create_exec
  cmde ← parse_redirects fuel new
  (cmd, argc) ← exec_loop fuel cmde cmde 0
  store_arg cmde argc none
  pure cmd

pub parse_pipe : ℕ → Parser ℕ
unfolding parse_exec
parse_pipe zero = raise out_of_fuel
parse_pipe (suc k) = do
  cmd ← parse_exec (suc k)
  p ← peek_in bar
  if not p.found
      then pure cmd
      else do _ ← next_token; right ← parse_pipe k; command_create_pipe cmd right

pub parse_line : ℕ → Parser ℕ
unfolding parse_pipe
parse_line fuel = parse_pipe fuel

-- `str != str_end`
abbrev check_end : ℕ → Text → Parser ℕ
check_end cmd [] = pure cmd
check_end cmd (_ ∷ _) = raise symbols_remained

unfoldable pub parse_command : Text → Outcome Exit (ℕ × Parse)
unfolding parse_line
parse_command line =
    let str = c_string line in
    (do cmd ← parse_line (length str + 1); p ← peek_in []; check_end cmd p.rest)
      (record { cursor = str; heap = [] })
