-- ===== src/Shell/Syntax.antt =====
-- The command lines of src/shell/shell.md, written out with any blanks, and what they mean.
pub mod Measure
use sysprog_solutions.Common.{ℕ, ◌≤◌, ◌≢◌, List, [], ◌∷◌, ◌++◌, length}
use sysprog_solutions.Shell.Lexer.{Text, TokenType}
use sysprog_solutions.Shell.Lexer.Tokens.{Blank, IsWord, symbol_of}
use sysprog_solutions.Shell.Heap.{OpenMode, rdonly, wronly_creat_trunc}

-- What a line asks for.
pub data Command : Type 0 where
  exec : List Text → Command
  pipe : Command → Command → Command
  redirect : Command → (file : Text) → (mode : OpenMode) → (fd : ℕ) → Command

pub data Direction : Type 0 where
  from to : Direction

abbrev pub token_type : Direction → TokenType
token_type from = TokenType.input
token_type to = TokenType.output

-- `<file` or `>file`, with the blanks before the symbol and before the file.
pub record Redirection : Type 0 where
  pub before : Text
  pub direction : Direction
  pub between : Text
  pub file : Text

-- A word with the blanks before it and the redirections behind it.
pub record Argument : Type 0 where
  pub before : Text
  pub word : Text
  pub redirections : List Redirection

abbrev pub render_redirections : List Redirection → Text → Text
render_redirections [] rest = rest
render_redirections (r ∷ rs) rest =
    r.before
    ++ symbol_of (token_type r.direction) ∷ (r.between ++ (r.file ++ render_redirections rs rest))

abbrev pub render_arguments : List Argument → Text → Text
render_arguments [] rest = rest
render_arguments (a ∷ as') rest =
    a.before ++ (a.word ++ render_redirections a.redirections (render_arguments as' rest))

-- The commands of a pipeline, each with the blanks behind it.
pub record Stage : Type 0 where
  pub arguments : List Argument
  pub after : Text

abbrev pub render : Stage → List Stage → Text
render s [] = render_arguments s.arguments s.after
render s (t ∷ ts) = render_arguments s.arguments (s.after ++ b'|' ∷ render t ts)

abbrev pub IsRedirection : Redirection → Type 0
IsRedirection r = Blank r.before × Blank r.between × IsWord r.file

abbrev pub AllRedirections : List Redirection → Type 0
AllRedirections [] = Unit
AllRedirections (r ∷ rs) = IsRedirection r × AllRedirections rs

-- Words are apart: blanks stand before each one.
abbrev pub AllArguments : List Argument → Type 0
AllArguments [] = Unit
AllArguments (a ∷ as') =
    Blank a.before
    × (a.before ≢ [])
    × IsWord a.word
    × AllRedirections a.redirections
    × AllArguments as'

-- Before the first word of a stage there may be no blank.
abbrev pub IsStart : List Argument → Type 0
IsStart [] = Unit
IsStart (a ∷ as') =
    Blank a.before × IsWord a.word × AllRedirections a.redirections × AllArguments as'

-- A stage has at most five words, and may have none.
pub record IsStage (s : Stage) : Type 0 where
  pub start : IsStart s.arguments
  pub few : length s.arguments ≤ 5
  pub blank : Blank s.after

abbrev pub AllStages : List Stage → Type 0
AllStages [] = Unit
AllStages (s ∷ ss) = IsStage s × AllStages ss

abbrev pub mode_of : Direction → OpenMode
mode_of from = rdonly
mode_of to = wronly_creat_trunc

abbrev pub fd_of : Direction → ℕ
fd_of from = 0
fd_of to = 1

-- The first redirection is the innermost.
abbrev pub redirected : Command → List Redirection → Command
redirected c [] = c
redirected c (r ∷ rs) = redirected (redirect c r.file (mode_of r.direction) (fd_of r.direction)) rs

abbrev pub words : List Argument → List Text
words [] = []
words (a ∷ as') = a.word ∷ words as'

abbrev pub all_redirections : List Argument → List Redirection
all_redirections [] = []
all_redirections (a ∷ as') = a.redirections ++ all_redirections as'

abbrev pub stage_command : Stage → Command
stage_command s = redirected (exec (words s.arguments)) (all_redirections s.arguments)

-- Pipes group to the right.
abbrev pub meaning : Stage → List Stage → Command
meaning s [] = stage_command s
meaning s (t ∷ ts) = pipe (stage_command s) (meaning t ts)
