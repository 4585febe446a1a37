-- ===== src/Shell/Parser/Accepts.antt =====
-- The parser of shell.c reads every command line of Syntax, and builds what it means.
use sysprog_solutions.Shell.Lexer.{pipe, Text, skip_spaces}
use sysprog_solutions.Common.{
  ℕ, suc, List, [], ◌∷◌, ◌++◌, arith, length, refl, Ensures, inl, ◌<◌, sym, append-nil, ◌∙◌, bind,
  subst, inr, zero, returns, get_elem?-end,
}
use sysprog_solutions.Shell.Syntax.{Stage, IsStage, AllStages, render, meaning}
use sysprog_solutions.Shell.Parser.Stages.{Ends, Parsed, parse_exec-run}
use sysprog_solutions.Shell.Lexer.Tokens.{
  Blank, peek-symbol, SameText, c_string-NoNul_self, skip_spaces_nil, Stops, SameText-gettoken,
  SameText-peek_rest, peek_end, gettoken-symbol, SameText-skip_spaces, skip_spaces_end,
  peek_rest_end,
}
use sysprog_solutions.Shell.Parser.{
  parse_pipe, parse_command, parse_line, command_create_pipe, redirections, bar,
}
use sysprog_solutions.Shell.Parser.Redirections.{Stops-Blank, found_in}
use sysprog_solutions.Shell.Heap.{command_create_pipe, Parse, Node}
use sysprog_solutions.Shell.Syntax.Measure.{rounds, render-NoNul, rounds-length}
use sysprog_solutions.Shell.Command.{Denotes}
use sysprog_solutions.Shell.Command.Frame.{Keeps-append, Denotes-Keeps, Keeps-then}

Ends-Blank : (g : Text) → Blank g → Ends g
Ends-Blank g b = (
  (
    subst Stops (append-nil g) (Stops-Blank g [] b tt),
    peek_end g redirections (skip_spaces_end g b),
  ),
  inr (skip_spaces_end g b),
)

Ends-bar : (g s : Text) → Blank g → Ends (g ++ b'|' ∷ s)
Ends-bar g s b = (
  (Stops-Blank g (b'|' ∷ s) b refl, peek-symbol g pipe s redirections b tt),
  inl (peek-symbol g pipe s bar b tt),
)

-- A pipeline is read to the end of the line.
parse_pipe-run :
    (s : Stage) (ts : List Stage) (k : ℕ) (st : Parse)
    → IsStage s
    → AllStages ts
    → rounds s ts < k
    → SameText st.cursor (render s ts)
    → Ensures (Parsed st.heap (meaning s ts) []) (λ _. ⊥) (parse_pipe k st)
unfolding parse_pipe command_create_pipe
parse_pipe-run s ts zero st i all f e = absurd (omega arith)
parse_pipe-run s [] (suc k) st i all f e =
    let ends = Ends-Blank s.after i.blank in
    bind (parse_exec-run s.arguments s.after (suc k) st i.start ends f i.few e) λ q st' left.
      rw
        (found_in st' s.after bar left.cursor
          ∙ peek_end s.after bar (skip_spaces_end s.after i.blank))
        (returns (record {
          cursor =
              SameText-peek_rest st'.cursor bar
              ∙ left.cursor
              ∙ skip_spaces_end s.after i.blank
              ∙ sym skip_spaces_nil;
          denotes = left.denotes;
          keeps = left.keeps;
        }))
parse_pipe-run s (t ∷ ts) (suc k) st i (j, all) f e =
    let rest = render t ts in
    let tail = s.after ++ b'|' ∷ rest in
    let ends = Ends-bar s.after rest i.blank in
    bind (parse_exec-run s.arguments tail (suc k) st i.start ends (omega arith) i.few e)
      λ q st' left.
        rw
          (
            found_in st' tail bar left.cursor ∙ peek-symbol s.after pipe rest bar i.blank tt,
            SameText-gettoken _ tail (SameText-peek_rest st'.cursor bar ∙ left.cursor)
                ∙ gettoken-symbol s.after pipe rest i.blank tt,
          )
          (bind
            (parse_pipe-run t ts k (record { cursor = skip_spaces rest; heap = st'.heap }) j all
              (omega arith) (SameText-skip_spaces rest))
            λ r st'' right.
              let node = Node.pipe q r in
              let grown = Keeps-append (length st''.heap) st''.heap (node ∷ []) in
              returns (record {
                cursor = right.cursor;
                denotes =
                    Denotes.pipe (get_elem?-end st''.heap node)
                      (Denotes-Keeps (Denotes-Keeps left.denotes right.keeps) grown)
                      (Denotes-Keeps right.denotes grown);
                keeps = Keeps-then (Keeps-then left.keeps right.keeps) grown;
              }))

-- A line that spells a pipeline is parsed with no error to the command that it means: each word
-- an argument, the redirections round their command in order, and pipes grouped to the right.
pub parse_command-meaning :
    (s : Stage) (ts : List Stage)
    → IsStage s
    → AllStages ts
    → Ensures (λ q st. Denotes st.heap q (meaning s ts)) (λ _. ⊥) (parse_command (render s ts))
unfolding parse_command parse_line
parse_command-meaning s ts i all =
    rw (c_string-NoNul_self (render s ts) (render-NoNul s ts i all)) (
      bind
        (parse_pipe-run s ts _ (record { cursor = render s ts; heap = [] }) i all
          (omega (arith, rounds-length s ts i all)) refl)
        λ q st parsed.
          rw (peek_rest_end st.cursor [] (parsed.cursor ∙ skip_spaces_nil))
            (returns parsed.denotes))
