-- ===== src/Shell/Syntax/Measure.antt =====
-- The lines of Syntax hold no NUL, and are longer than the rounds that the parser takes over them.
use sysprog_solutions.Common.{
  ℕ, suc, ◌+◌, ◌≤◌, List, [], ◌∷◌, ◌++◌, arith, length, length-append, refl, ◌≢◌,
}
use sysprog_solutions.Shell.Syntax.{
  to, from, Redirection, render_redirections, AllRedirections, Direction, Stage, Argument, Text,
  symbol_of, IsWord, IsStage, IsStart, Blank, AllArguments, AllStages, render_arguments, token_type,
  render,
}
use sysprog_solutions.Shell.Lexer.{Text}
use sysprog_solutions.Shell.Lexer.Tokens.{Blank, symbol_of, IsWord, Letters-NoNul}
use sysprog_solutions.Shell.Lexer.Progress.{NoNul}

-- Rounds that the loops take over the arguments.
abbrev pub weight : List Argument → ℕ
weight [] = 0
weight (a ∷ as') = suc (length a.redirections + weight as')

pub AllArguments-IsStart : (as' : List Argument) → AllArguments as' → IsStart as'
AllArguments-IsStart [] h = tt
AllArguments-IsStart (a ∷ as') (b, ne, w, rs, all) = (b, w, rs, all)

NoNul-append : (s t : Text) → NoNul s → NoNul t → NoNul (s ++ t)
NoNul-append [] t h k = k
NoNul-append (c ∷ s) t (z, h) k = (z, NoNul-append s t h k)

Blank-NoNul : (g : Text) → Blank g → NoNul g
Blank-NoNul [] b = tt
Blank-NoNul (c ∷ g) (e, z, b) = (z, Blank-NoNul g b)

symbol-nonzero : (d : Direction) → symbol_of (token_type d) ≢ 0
symbol-nonzero from = ground arith
symbol-nonzero to = ground arith

redirections-NoNul :
    (rs : List Redirection) (tail : Text)
    → AllRedirections rs
    → NoNul tail
    → NoNul (render_redirections rs tail)
redirections-NoNul [] tail a h = h
redirections-NoNul (r ∷ rs) tail ((b, b', w), a) h =
    NoNul-append r.before _ (Blank-NoNul r.before b) (
      symbol-nonzero r.direction,
      NoNul-append r.between _ (Blank-NoNul r.between b')
          (NoNul-append r.file _ (Letters-NoNul r.file w.1) (redirections-NoNul rs tail a h)),
    )

arguments-NoNul :
    (as' : List Argument) (tail : Text)
    → IsStart as'
    → NoNul tail
    → NoNul (render_arguments as' tail)
arguments-NoNul [] tail a h = h
arguments-NoNul (a ∷ as') tail (b, w, rs, all) h =
    NoNul-append a.before _ (Blank-NoNul a.before b) (
      NoNul-append a.word _ (Letters-NoNul a.word w.1) (
        redirections-NoNul a.redirections _ rs
          (arguments-NoNul as' tail (AllArguments-IsStart as' all) h)))

pub render-NoNul : (s : Stage) (ts : List Stage) → IsStage s → AllStages ts → NoNul (render s ts)
render-NoNul s [] i all = arguments-NoNul s.arguments _ i.start (Blank-NoNul s.after i.blank)
render-NoNul s (t ∷ ts) i (j, all) = arguments-NoNul s.arguments _ i.start (
    NoNul-append s.after _ (Blank-NoNul s.after i.blank)
      ((λ e. ground arith), render-NoNul t ts j all))

-- Rounds that the parser takes over a pipeline.
abbrev pub rounds : Stage → List Stage → ℕ
rounds s [] = weight s.arguments
rounds s (t ∷ ts) = suc (weight s.arguments + rounds t ts)

length-redirections :
    (rs : List Redirection) (tail : Text)
    → length rs + length tail ≤ length (render_redirections rs tail)
length-redirections [] tail = omega arith
length-redirections (r ∷ rs) tail =
    let rest = render_redirections rs tail in
    omega (
      arith,
      length-redirections rs tail,
      length-append r.file rest,
      length-append r.between (r.file ++ rest),
      length-append r.before (symbol_of (token_type r.direction) ∷ (r.between ++ (r.file ++ rest))),
    )

length-word : (w : Text) → IsWord w → 1 ≤ length w
length-word [] (ne, l) = absurd (ne refl)
length-word (c ∷ w) h = omega arith

weight-arguments :
    (as' : List Argument) (tail : Text)
    → IsStart as'
    → weight as' + length tail ≤ length (render_arguments as' tail)
weight-arguments [] tail a = omega arith
weight-arguments (a ∷ as') tail (b, w, rs, all) =
    let rest = render_arguments as' tail in
    let behind = render_redirections a.redirections rest in
    omega (
      arith,
      weight-arguments as' tail (AllArguments-IsStart as' all),
      length-redirections a.redirections rest,
      length-word a.word w,
      length-append a.word behind,
      length-append a.before (a.word ++ behind),
    )

pub rounds-length :
    (s : Stage) (ts : List Stage) → IsStage s → AllStages ts → rounds s ts ≤ length (render s ts)
rounds-length s [] i all = omega (arith, weight-arguments s.arguments s.after i.start)
rounds-length s (t ∷ ts) i (j, all) = omega (
  arith,
  rounds-length t ts j all,
  length-append s.after (b'|' ∷ render t ts),
  weight-arguments s.arguments (s.after ++ b'|' ∷ render t ts) i.start,
)
