-- ===== src/Shell/Parser/NoFault.antt =====
-- Where a stage does not begin with a redirection, `parse_exec` of shell.c writes `argv` in bounds
-- and through a pointer to a `command_exec`.
use sysprog_solutions.Common.{
  ℕ, zero, suc, ◌≡◌, ◌<◌, inl, inr, true, false, Option, none, some, [], ◌∷◌, arith, Ensures,
  returns, stops, bind, length, get_elem?, ◌≢◌, ◌++◌, Bool-cases, replicate, ltb, get_elem?-end,
  get_elem?-set_self, refl, set, lt-of-get_elem?, length-set, ◌∙◌, if◌then◌else◌, leb, ◌+◌, raise,
  ◌>>=◌,
}
use sysprog_solutions.Shell.Lexer.{Text, TokenType, input, output, gettoken, peek, is_invalid}
use sysprog_solutions.Shell.Heap.{
  Exit, fault, Parse, Node, exec, set_argv, command_create_redirect, command_create_exec, Heap,
  max_args, too_many_args,
}
use sysprog_solutions.Shell.Parser.{
  redirections, bar, parse_redirects, redirect_case, exec_loop, parse_exec, is_letter_token,
}
use sysprog_solutions.Shell.Parser.Redirections.{parse_redirects_none}

abbrev NotFault : Exit → Type 0
NotFault e = e ≢ fault

abbrev IsExec : Option Node → Type 0
IsExec (some (exec argv)) = length argv ≡ max_args
IsExec _ = ⊥

IsExec-append : (h g : Heap) (p : ℕ) → IsExec (get_elem? h p) → IsExec (get_elem? (h ++ g) p)
IsExec-append [] g p is = elim is [ ]
IsExec-append (n ∷ h) g zero is = is
IsExec-append (n ∷ h) g (suc p) is = IsExec-append h g p is

redirect_case-IsExec :
    (t : TokenType) (p q : ℕ) (file : Text) (st : Parse)
    → IsExec (get_elem? st.heap p)
    → Ensures (λ _ st'. IsExec (get_elem? st'.heap p)) NotFault (redirect_case t q file st)
unfolding redirect_case command_create_redirect
redirect_case-IsExec input p q file st is = returns (IsExec-append st.heap _ p is)
redirect_case-IsExec output p q file st is = returns (IsExec-append st.heap _ p is)
redirect_case-IsExec _ p q file st is = returns is

parse_redirects-IsExec :
    (k p q : ℕ) (st : Parse)
    → IsExec (get_elem? st.heap p)
    → Ensures (λ _ st'. IsExec (get_elem? st'.heap p)) NotFault (parse_redirects k q st)
unfolding parse_redirects
parse_redirects-IsExec zero p q st is = stops (λ e. cc)
parse_redirects-IsExec (suc k) p q st is = elim (Bool-cases (peek st.cursor redirections).found) [
  | inr plain ↦ rw plain (returns is)
  | inl found ↦ rw found (
      let s2 = (gettoken (peek st.cursor redirections).rest).rest in
      elim (Bool-cases (is_invalid (gettoken s2).type)) [
        | inl bad ↦ rw bad (stops (λ e. cc))
        | inr good ↦ rw good (
            bind
              (redirect_case-IsExec (gettoken (peek st.cursor redirections).rest).type p q
                (gettoken s2).text _ is)
              λ q' st' is'. parse_redirects-IsExec k p q' st' is')
      ])
]

set_argv-IsExec :
    (o : Option Node) (p i : ℕ) (v : Option Text) (st : Parse)
    → get_elem? st.heap p ≡ o
    → IsExec o
    → i < max_args
    → Ensures (λ _ st'. IsExec (get_elem? st'.heap p)) NotFault (set_argv o p i v st)
unfolding set_argv
set_argv-IsExec (some (exec argv)) p i v st e is lt =
    let within : ltb i (length argv) ≡ true = ground arith in
    rw within (
      returns (
        rw (get_elem?-set_self st.heap p (exec (set argv i v)) (lt-of-get_elem? st.heap p e))
          (length-set argv i v ∙ is)))
set_argv-IsExec _ p i v st e is lt = elim is [ ]

exec_loop-IsExec :
    (k p q argc : ℕ) (st : Parse)
    → IsExec (get_elem? st.heap p)
    → argc < max_args
    → Ensures
        (λ r st'. IsExec (get_elem? st'.heap p) × (r.1 < max_args))
        NotFault
        (exec_loop k p q argc st)
unfolding exec_loop
exec_loop-IsExec zero p q argc st is lt = stops (λ e. cc)
exec_loop-IsExec (suc k) p q argc st is lt = elim (Bool-cases (peek st.cursor bar).found) [
  | inl found ↦ rw found (returns (is, lt))
  | inr plain ↦ rw plain (
      let s1 = (peek st.cursor bar).rest in
      elim (Bool-cases (is_invalid (gettoken s1).type)) [
        | inl end ↦ rw end (returns (is, lt))
        | inr good ↦ rw good (elim (Bool-cases (is_letter_token (gettoken s1).type)) [
          | inr symbol ↦ rw symbol (stops (λ e. cc))
          | inl letter ↦ rw letter (
              bind (set_argv-IsExec (get_elem? st.heap p) p argc _ _ refl is lt)
                λ _ st' is'. more k p q argc st' is' (exec_loop-IsExec k p))
        ])
      ])
]
  where
    more :
        (k p q argc : ℕ) (st' : Parse)
        → IsExec (get_elem? st'.heap p)
        → ((q' argc' : ℕ) (st'' : Parse)
            → IsExec (get_elem? st''.heap p)
            → argc' < max_args
            → Ensures
                (λ r s. IsExec (get_elem? s.heap p) × (r.1 < max_args))
                NotFault
                (exec_loop k p q' argc' st''))
        → Ensures
            (λ r s. IsExec (get_elem? s.heap p) × (r.1 < max_args))
            NotFault
            ((if leb max_args (argc + 1)
                then raise too_many_args
                else (parse_redirects k q >>= λ q'. exec_loop k p q' (argc + 1)))
              st')
    more k p q argc st' is' ih = elim (Bool-cases (leb max_args (argc + 1))) [
      | inl full ↦ rw full (stops (λ e. cc))
      | inr room ↦ rw room (
          bind (parse_redirects-IsExec k p q st' is')
            λ q' st'' is''. ih q' (argc + 1) st'' is'' (ground arith))
    ]

-- Where the text does not begin, behind blanks, with `<` or `>`, `parse_exec` has no undefined
-- behaviour, with any fuel.
pub parse_exec-NotFault :
    (k : ℕ) (st : Parse)
    → (peek st.cursor redirections).found ≡ false
    → Ensures (λ _ _. Unit {0}) NotFault (parse_exec (suc k) st)
unfolding parse_exec command_create_exec
parse_exec-NotFault k st plain =
    let p = length st.heap in
    let new = exec (replicate max_args none) in
    let start = record st { heap = st.heap ++ new ∷ [] } in
    rw (parse_redirects_none (suc k) p start (omega arith) plain) (
      bind (exec_loop-IsExec (suc k) p p 0 _ (rw (get_elem?-end st.heap new) refl) (omega arith))
        λ r st' (is, lt).
          bind (set_argv-IsExec (get_elem? st'.heap p) p r.1 none st' refl is lt)
            λ _ _ _. returns tt)
