-- ===== src/Shell/Parser/LeadingRedirection.antt =====
-- `parse_exec` of shell.c casts the result of its first `parse_redirects` to `command_exec *`,
-- also where that is a `command_redirect`.
use sysprog_solutions.Common.{
  ℕ, zero, suc, ◌≡◌, ◌⊎◌, inl, inr, true, Option, none, some, [], ◌∷◌, arith, Ensures, returns,
  stops, bind, Outcome, get_elem?, Bool-cases, never_returns, get_elem?-end, length, ◌+◌,
}
use sysprog_solutions.Shell.Lexer.{
  Text, TokenType, input, output, gettoken, peek, c_string, is_invalid, token_at, peeked,
  skip_spaces,
}
use sysprog_solutions.Shell.Heap.{
  Exit, Parse, Node, redirect, set_argv, command_create_redirect, command_create_exec,
}
use sysprog_solutions.Shell.Parser.{
  redirections, bar, parse_redirects, redirect_case, exec_loop, parse_exec, parse_pipe, parse_line,
  parse_command, is_letter_token,
}
use sysprog_solutions.Shell.Parser.Invariant.{Expected}
use sysprog_solutions.Shell.Lexer.Progress.{skip_spaces-skip_spaces}
use sysprog_solutions.Shell.Parser.Safety.{parse_command-Valid}

abbrev IsRedirect : Option Node → Type 0
IsRedirect (some (redirect q file mode fd)) = Unit
IsRedirect _ = ⊥

-- The run stops, or `P` holds of what it returns.
abbrev IfReturns : {A : Type 0} → (A → Parse → Type 0) → Outcome Exit (A × Parse) → Type 0
IfReturns P r = Ensures P (λ _. Unit {0}) r

new-IsRedirect :
    (q : ℕ) (file : Text) (t : TokenType) (st : Parse)
    → IfReturns (λ q' st'. IsRedirect (get_elem? st'.heap q')) (command_create_redirect q file t st)
unfolding command_create_redirect
new-IsRedirect q file t st = returns (rw get_elem?-end tt)

case-IsRedirect :
    (t : TokenType) (q : ℕ) (file : Text) (st : Parse)
    → (t ≡ input) ⊎ ((t ≡ output) ⊎ IsRedirect (get_elem? st.heap q))
    → IfReturns (λ q' st'. IsRedirect (get_elem? st'.heap q')) (redirect_case t q file st)
unfolding redirect_case
case-IsRedirect input q file st h = new-IsRedirect q _ input st
case-IsRedirect output q file st h = new-IsRedirect q _ output st
case-IsRedirect _ q file st h = returns (ground arith)

token_at-redirection :
    (s : Text)
    → (peeked s redirections).found ≡ true
    → ((token_at s).type ≡ input) ⊎ ((token_at s).type ≡ output)
unfolding token_at
token_at-redirection [] h = cc
token_at-redirection (c ∷ s) h = ground arith

-- A `<` or `>` in front is a token of its own.
redirection_token :
    (s : Text)
    → (peek s redirections).found ≡ true
    → ((gettoken (peek s redirections).rest).type ≡ input)
      ⊎ ((gettoken (peek s redirections).rest).type ≡ output)
unfolding peek gettoken
redirection_token s h = rw skip_spaces-skip_spaces (token_at-redirection (skip_spaces s) h)

parse_redirects-IsRedirect :
    (k q : ℕ) (st : Parse)
    → ((peek st.cursor redirections).found ≡ true) ⊎ IsRedirect (get_elem? st.heap q)
    → IfReturns (λ q' st'. IsRedirect (get_elem? st'.heap q')) (parse_redirects k q st)
unfolding parse_redirects
parse_redirects-IsRedirect zero q st h = stops tt
parse_redirects-IsRedirect (suc k) q st h = elim (Bool-cases (peek st.cursor redirections).found) [
  | inr plain ↦ rw plain (returns (ground arith))
  | inl found ↦ rw found (
      let s2 = (gettoken (peek st.cursor redirections).rest).rest in
      elim (Bool-cases (is_invalid (gettoken s2).type)) [
        | inl bad ↦ rw bad (stops tt)
        | inr good ↦ rw good (
            bind
              (case-IsRedirect (gettoken (peek st.cursor redirections).rest).type q
                (gettoken s2).text _
                (elim (redirection_token st.cursor found) [ inl e ↦ inl e | inr e ↦ inr (inl e) ]))
              λ q' st' is. parse_redirects-IsRedirect k q' st' (inr is))
      ])
]

set_argv-IsRedirect :
    (o : Option Node) (cmde i : ℕ) (v : Option Text) (st : Parse)
    → IsRedirect o
    → IfReturns (λ _ _. ⊥) (set_argv o cmde i v st)
unfolding set_argv
set_argv-IsRedirect (some (redirect q file mode fd)) cmde i v st is = stops tt
set_argv-IsRedirect _ cmde i v st is = elim is [ ]

exec_loop-IsRedirect :
    (k cmde q argc : ℕ) (st : Parse)
    → IsRedirect (get_elem? st.heap cmde)
    → IfReturns (λ _ st'. IsRedirect (get_elem? st'.heap cmde)) (exec_loop k cmde q argc st)
unfolding exec_loop
exec_loop-IsRedirect zero cmde q argc st is = stops tt
exec_loop-IsRedirect (suc k) cmde q argc st is = elim (Bool-cases (peek st.cursor bar).found) [
  | inl found ↦ rw found (returns is)
  | inr plain ↦ rw plain (
      let s1 = (peek st.cursor bar).rest in
      elim (Bool-cases (is_invalid (gettoken s1).type)) [
        | inl end ↦ rw end (returns is)
        | inr good ↦ rw good (elim (Bool-cases (is_letter_token (gettoken s1).type)) [
          | inr symbol ↦ rw symbol (stops tt)
          | inl letter ↦ rw letter (
              bind (set_argv-IsRedirect (get_elem? st.heap cmde) cmde argc _ _ is)
                λ _ _ never. absurd never)
        ])
      ])
]

-- A stage that begins with a redirection is never parsed to a command: `cmde->argv` is written
-- through a pointer to a `command_redirect`, if no error exit comes first.
pub parse_exec-redirect_first :
    (k : ℕ) (st : Parse)
    → (peek st.cursor redirections).found ≡ true
    → IfReturns (λ _ _. ⊥) (parse_exec k st)
unfolding parse_exec command_create_exec
parse_exec-redirect_first k st found =
    bind (parse_redirects-IsRedirect k (length st.heap) _ (inl found)) λ cmde st1 is.
      bind (exec_loop-IsRedirect k cmde cmde 0 st1 is) λ r st2 is'.
        bind (set_argv-IsRedirect (get_elem? st2.heap cmde) cmde r.1 none st2 is')
          λ _ _ never. absurd never

parse_pipe-redirect_first :
    (k : ℕ) (st : Parse)
    → (peek st.cursor redirections).found ≡ true
    → IfReturns (λ _ _. ⊥) (parse_pipe k st)
unfolding parse_pipe
parse_pipe-redirect_first zero st found = stops tt
parse_pipe-redirect_first (suc k) st found =
    bind (parse_exec-redirect_first (suc k) st found) λ _ _ never. absurd never

-- A line that begins, behind blanks, with `<` or `>` is never parsed to a command: it ends in an
-- error exit or in undefined behaviour.
pub parse_command-redirect_first :
    (line : Text)
    → (peek (c_string line) redirections).found ≡ true
    → Ensures (λ _ _. ⊥) Expected (parse_command line)
unfolding parse_command parse_line
parse_command-redirect_first line found = never_returns (parse_command-Valid line) (
    bind (parse_pipe-redirect_first (length (c_string line) + 1) _ found) λ _ _ never. absurd never)
