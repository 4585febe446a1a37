-- ===== src/Shell/Parser/Safety.antt =====
-- Every line that shell.c parses leaves valid nodes, or ends the process by one of its error exits.
use native.Mathlib.Nat.{le_refl}
use sysprog_solutions.Common.{
  Bool-cases, inl, inr, [], ℕ, zero, suc, ◌≤◌, ◌<◌, arith, length, Ensures, returns, stops, bind,
  mono, ◌⊎◌, ◌≡◌, none, get_elem?, some, leb, true, ◌+◌, refl, false, ap,
}
use sysprog_solutions.Shell.Lexer.{Text, gettoken, peek, is_invalid, mkcopy, c_string}
use sysprog_solutions.Shell.Lexer.Progress.{
  peek-nil_rest, c_string-NoNul, gettoken-valid_of_peek, peek-again, gettoken-nil_of_invalid, NoNul,
  gettoken-lt_of_found, gettoken-NoNul, length-gettoken, peek-NoNul, length-peek,
}
use sysprog_solutions.Shell.Heap.{Parse, max_args, command_create_exec, command_create_pipe, pipe}
use sysprog_solutions.Shell.Heap.Valid.{Valid}
use sysprog_solutions.Shell.Parser.{
  redirections, bar, parse_redirects, exec_loop, is_letter_token, parse_exec, parse_pipe,
  parse_command, parse_line,
}
use sysprog_solutions.Shell.Parser.Invariant.{
  Fits-weaken, Fits, Fits-alloc_exec, Expected, Fits-seek, Fits-alloc, redirect_case-Fits,
  set_argv-Fits, set_argv-Expected,
}
use sysprog_solutions.Shell.Syntax.{Command}
use sysprog_solutions.Shell.Command.{Denotes}
use sysprog_solutions.Shell.Command.Total.{Valid-Denotes}

-- Where `exec_loop` leaves off: at a bar, or at the end of the line.
abbrev Halts : Parse → Type 0
Halts st = ((peek st.cursor bar).found ≡ true) ⊎ (st.cursor ≡ [])

module _ {c n : ℕ} where
  parse_redirects-Fits :
      (k p : ℕ) (st : Parse)
      → Fits c n p st
      → length st.cursor < k
      → Ensures
          (λ q st'. Fits c n q st' × (length st'.cursor ≤ length st.cursor))
          Expected
          (parse_redirects k p st)
  unfolding parse_redirects
  parse_redirects-Fits zero p st f h = absurd (omega arith)
  parse_redirects-Fits (suc k) p st f h =
      let s1 = (peek st.cursor redirections).rest in
      let n1 = peek-NoNul st.cursor redirections f.no_nul in
      let l1 = length-peek st.cursor redirections in
      elim (Bool-cases (peek st.cursor redirections).found) [
        | inr none_left ↦ rw none_left (returns (Fits-seek s1 f n1 l1, l1))
        | inl found ↦ rw found (
            let n2 = gettoken-NoNul s1 n1 in
            let l2 = length-gettoken s1 n1 in
            let s2 = (gettoken s1).rest in
            elim (Bool-cases (is_invalid (gettoken s2).type)) [
              | inl bad ↦ rw bad (stops (λ e. cc, λ e. cc))
              | inr good ↦ rw good (
                  bind
                    (redirect_case-Fits (gettoken s1).type p (gettoken s2).text _ (
                      Fits-seek (gettoken s2).rest f (gettoken-NoNul s2 n2)
                        (omega (arith, length-gettoken s2 n2))))
                    λ q st' (f', l').
                      mono
                        (parse_redirects-Fits k q st' f'
                          (omega (arith, gettoken-lt_of_found s2 n2 good)))
                        (λ r st'' (f'', l''). (f'', omega (arith, length-gettoken s2 n2)))
                        (λ e x. x))
            ])
      ]

  exec_loop-Fits :
      (k cmde p argc : ℕ) (st : Parse)
      → Fits c n p st
      → argc < max_args
      → length st.cursor < k
      → Ensures
          (λ r st'. Fits c n r.0 st' × (r.1 < max_args) × Halts st')
          Expected
          (exec_loop k cmde p argc st)
  unfolding exec_loop
  exec_loop-Fits zero cmde p argc st f a h = absurd (omega arith)
  exec_loop-Fits (suc k) cmde p argc st f a h =
      let s1 = (peek st.cursor bar).rest in
      let n1 = peek-NoNul st.cursor bar f.no_nul in
      let l1 = length-peek st.cursor bar in
      elim (Bool-cases (peek st.cursor bar).found) [
        | inl found ↦ rw found (returns (Fits-seek s1 f n1 l1, a, inl (rw peek-again found)))
        | inr plain ↦ rw plain (
            let s2 = (gettoken s1).rest in
            let n2 = gettoken-NoNul s1 n1 in
            let l2 = length-gettoken s1 n1 in
            let f2 = Fits-seek s2 f n2 (omega arith) in
            elim (Bool-cases (is_invalid (gettoken s1).type)) [
              | inl end ↦ rw end (returns (f2, a, inr (gettoken-nil_of_invalid s1 n1 end)))
              | inr good ↦ rw good (elim (Bool-cases (is_letter_token (gettoken s1).type)) [
                | inr symbol ↦ rw symbol (stops (λ e. cc, λ e. cc))
                | inl word ↦ rw word (
                    let lt = gettoken-lt_of_found s1 n1 good in
                    let w = some (mkcopy (gettoken s1).text) in
                    let o = get_elem? st.heap cmde in
                    elim (Bool-cases (leb max_args (argc + 1))) [
                      | inl full ↦ rw full (
                          bind (set_argv-Expected o cmde argc w _)
                            λ _ _ _. stops (λ e. cc, λ e. cc))
                      | inr room ↦ rw room (
                          bind (set_argv-Fits o cmde argc w _ refl f2 (inl (ground arith)))
                            λ _ st' (f', e').
                              bind (parse_redirects-Fits k p st' f' (omega (arith, ap length e')))
                                λ q st'' (f'', l'').
                                  exec_loop-Fits k cmde q (argc + 1) st'' f'' (ground arith)
                                    (omega (arith, ap length e')))
                    ])
              ])
            ])
      ]

  parse_exec-Fits :
      (k : ℕ) (st : Parse)
      → NoNul st.cursor
      → length st.cursor ≤ c
      → Valid st.heap
      → n ≤ length st.heap
      → length st.cursor < k
      → Ensures (λ p st'. Fits c n p st' × Halts st') Expected (parse_exec k st)
  unfolding parse_exec command_create_exec
  parse_exec-Fits k st z l v g h =
      let new = Fits-alloc_exec st z l v g in
      bind (parse_redirects-Fits k (length st.heap) _ new h) λ cmde st1 (f1, l1).
        bind (exec_loop-Fits k cmde cmde 0 st1 f1 (omega arith) (omega arith))
          λ r st2 (f2, a2, halts).
            bind (set_argv-Fits (get_elem? st2.heap cmde) cmde r.1 none st2 refl f2 (inr refl))
              λ _ st3 (f3, e3). returns (f3, rw e3 halts)

rest_nil :
    (st : Parse) → Halts st → (peek st.cursor bar).found ≡ false → (peek st.cursor bar).rest ≡ []
rest_nil st (inl found) h = cc
rest_nil st (inr end) h = rw end (peek-nil_rest bar)

-- The rest of the line is one pipeline: the parser reads it to the end.
pub parse_pipe-Fits :
    (k : ℕ) (st : Parse)
    → NoNul st.cursor
    → Valid st.heap
    → length st.cursor < k
    → Ensures
        (λ p st'. Fits (length st.cursor) (length st.heap) p st' × (st'.cursor ≡ []))
        Expected
        (parse_pipe k st)
unfolding parse_pipe command_create_pipe
parse_pipe-Fits zero st z v h = absurd (omega arith)
parse_pipe-Fits (suc k) st z v h =
    bind (parse_exec-Fits (suc k) st z (le_refl _) v (le_refl _) h) λ cmd st1 (f1, halts).
      let s1 = (peek st1.cursor bar).rest in
      let n1 = peek-NoNul st1.cursor bar f1.no_nul in
      let l1 = length-peek st1.cursor bar in
      elim (Bool-cases (peek st1.cursor bar).found) [
        | inr none_left ↦
            rw none_left (returns (Fits-seek s1 f1 n1 l1, rest_nil st1 halts none_left))
        | inl found ↦ rw found (
            let lt = gettoken-lt_of_found s1 n1 (gettoken-valid_of_peek st1.cursor bar found) in
            bind
              (parse_pipe-Fits k (record { cursor = (gettoken s1).rest; heap = st1.heap })
                (gettoken-NoNul s1 n1) f1.valid (omega (arith, f1.shorter)))
              λ right st2 (f2, e2). returns (
                Fits-weaken
                    (Fits-alloc (pipe cmd right) f2 (omega (arith, f1.points, f2.grows), f2.points))
                    (omega (arith, f1.shorter)) (omega (arith, f1.grows)),
                e2,
              ))
      ]

pub parse_command-Valid :
    (line : Text)
    → Ensures
        (λ p st. Valid st.heap × (p < length st.heap) × (st.cursor ≡ []))
        Expected
        (parse_command line)
unfolding parse_command parse_line
parse_command-Valid line =
    bind (parse_pipe-Fits (length (c_string line) + 1) _ (c_string-NoNul line) tt (omega arith))
      λ p st (f, e). rw (e, peek-nil_rest) (returns (f.valid, f.points, refl))

-- `parse_command` of any line ends, and its check that the whole line was read never fails. Where
-- it returns, the line is read to its end, each node points to older nodes only and keeps NULL in
-- the last of its six `argv` slots, and the result stands for a command.
pub parse_command_total :
    (line : Text)
    → Ensures
        (λ p st. (st.cursor ≡ []) × Valid st.heap × ((c : Command) × Denotes st.heap p c))
        Expected
        (parse_command line)
parse_command_total line =
    mono (parse_command-Valid line)
      (λ p st (v, lt, e). (e, v, Valid-Denotes (suc p) st.heap p v lt (omega arith))) (λ e x. x)
