-- ===== src/Shell/Command.antt =====
-- The command that a node of shell.c stands for.
pub mod Frame
pub mod Total
use sysprog_solutions.Common.{ℕ, ◌≡◌, ◌≢◌, List, [], ◌∷◌, Option, none, some, get_elem?}
use sysprog_solutions.Shell.Lexer.{Text}
use sysprog_solutions.Shell.Syntax.{Command, Redirection, mode_of, fd_of}
use sysprog_solutions.Shell.Heap.{Heap, Node, OpenMode}

-- `argv` up to its first NULL.
abbrev pub arguments : List (Option Text) → List Text
arguments [] = []
arguments (none ∷ argv) = []
arguments (some w ∷ argv) = w ∷ arguments argv

pub data Denotes (h : Heap) : ℕ → Command → Type 0 where
  exec :
      {p : ℕ} {argv : List (Option Text)}
      → get_elem? h p ≡ some (Node.exec argv)
      → Denotes h p (Command.exec (arguments argv))
  pipe :
      {p left right : ℕ} {c d : Command}
      → get_elem? h p ≡ some (Node.pipe left right)
      → Denotes h left c
      → Denotes h right d
      → Denotes h p (Command.pipe c d)
  redirect :
      {p cmd : ℕ} {file : Text} {mode : OpenMode} {fd : ℕ} {c : Command}
      → get_elem? h p ≡ some (Node.redirect cmd file mode fd)
      → Denotes h cmd c
      → Denotes h p (Command.redirect c file mode fd)

-- From `q` redirection nodes, the last one outermost, lead to the node `p`, which is none of them.
pub data Wraps (h : Heap) (p : ℕ) : ℕ → List Redirection → Type 0 where
  here : Wraps h p p []
  wrap :
      {q q' : ℕ} {r : Redirection} {rs : List Redirection}
      → get_elem? h q ≡ some (Node.redirect q' r.file (mode_of r.direction) (fd_of r.direction))
      → q ≢ p
      → Wraps h p q' rs
      → Wraps h p q (r ∷ rs)
