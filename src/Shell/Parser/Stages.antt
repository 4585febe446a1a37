-- ===== src/Shell/Parser/Stages.antt =====
-- `exec_loop` and `parse_exec` of shell.c on the stages of Syntax.
use sysprog_solutions.Common.{
  ℕ, suc, ◌+◌, ◌<◌, ◌≡◌, ◌⊎◌, true, false, List, [], ◌∷◌, ◌++◌, arith, length, ◌≢◌, some, refl, ok,
  none, set, ltb, ◌≤◌, Ensures, append-nil, inl, ◌∙◌, returns, inr, zero, length-set, leb,
  length-append, append_assoc, bind, get_elem?-set_self, lt-of-get_elem?, mono, ap, get_elem?-end,
}
use sysprog_solutions.Shell.Lexer.{Text, peek, skip_spaces, is_letter, strchr}
use sysprog_solutions.Shell.Syntax.{
  Argument, AllArguments, render_arguments, IsStart, Redirection, all_redirections, words,
  render_redirections, Command, redirected,
}
use sysprog_solutions.Shell.Heap.{Parse, set_argv, max_args, Node, Heap, command_create_exec}
use sysprog_solutions.Shell.Parser.{redirections, bar, exec_loop, parse_exec}
use sysprog_solutions.Shell.Parser.Redirections.{
  Bare, Built, found_in, Stops-redirections, parse_redirects-run, parse_redirects_none,
}
use sysprog_solutions.Shell.Lexer.Tokens.{
  Blank, Stops, peek-word, SameText-peek_rest, SameText-gettoken, gettoken-word, mkcopy-Letters,
  peek_end, gettoken_end, SameText-end, SameText-skip_spaces, SameText,
}
use sysprog_solutions.Shell.Command.Frame.{
  pad, length-pad, set-pad-none, set-pad-some, push, Keeps, Keeps-refl, push-append, Wraps-set,
  Keeps-trans, Keeps-set, redirected-outer, arguments-pad, Wraps-Denotes, Keeps-append,
}
use native.Mathlib.Nat.{le_refl}
use sysprog_solutions.Shell.Command.{Denotes, here}
use sysprog_solutions.Shell.Syntax.Measure.{weight, AllArguments-IsStart}

-- A text that ends a stage: the next bar, or the end of the line.
abbrev pub Ends : Text → Type 0
Ends s = Bare s × (((peek s bar).found ≡ true) ⊎ (skip_spaces s ≡ []))

not_bar : (c : ℕ) → is_letter c ≡ true → strchr bar c ≡ false
not_bar c h = ground arith

not_redirection : (c : ℕ) → is_letter c ≡ true → strchr redirections c ≡ false
not_redirection c h = ground arith

Stops-nonempty : (g s : Text) → Blank g → g ≢ [] → Stops (g ++ s)
Stops-nonempty [] s b ne = absurd (ne refl)
Stops-nonempty (c ∷ g) s (e, z, b) ne = ground arith

Bare-arguments :
    (as' : List Argument) (tail : Text)
    → AllArguments as'
    → Ends tail
    → Bare (render_arguments as' tail)
Bare-arguments [] tail a ends = ends.0
Bare-arguments (a ∷ as') tail (b, ne, w, rs, all) ends =
    (Stops-nonempty a.before _ b ne, peek-word a.before a.word _ redirections b w not_redirection)

set_argv-some :
    (p : ℕ) (ws : List Text) (w : Text) (st : Parse)
    → length ws < max_args
    → set_argv (some (Node.exec (pad max_args ws))) p (length ws) (some w) st
      ≡ ok (tt, record st { heap = set st.heap p (Node.exec (pad max_args (ws ++ w ∷ []))) })
unfolding set_argv
set_argv-some p ws w st h =
    let fits : ltb (length ws) (length (pad max_args ws)) ≡ true =
      ground (arith, length-pad max_args ws) in
    rw (fits, set-pad-some max_args ws w h)

set_argv-none :
    (p : ℕ) (ws : List Text) (st : Parse)
    → length ws < max_args
    → set_argv (some (Node.exec (pad max_args ws))) p (length ws) none st
      ≡ ok (tt, record st { heap = set st.heap p (Node.exec (pad max_args ws)) })
unfolding set_argv
set_argv-none p ws st h =
    let fits : ltb (length ws) (length (pad max_args ws)) ≡ true =
      ground (arith, length-pad max_args ws) in
    rw (fits, set-pad-none max_args ws h)

length-words : (as' : List Argument) → length (words as') ≡ length as'
length-words [] = refl
length-words (a ∷ as') = ap suc (length-words as')

-- `exec_loop` stores the words of a stage and wraps its redirections.
exec_loop-run :
    (as' : List Argument) (tail : Text) (k b p q argc : ℕ) (acc : List Redirection) (ws : List Text)
    (st : Parse)
    → IsStart as'
    → Ends tail
    → weight as' < k
    → length ws + length as' ≤ 5
    → argc ≡ length ws
    → b ≤ p
    → Built p q acc ws (render_arguments as' tail) st
    → Ensures
        (λ r st'.
          Built p r.0 (push (all_redirections as') acc) (ws ++ words as') tail st'
          × (r.1 ≡ length (ws ++ words as'))
          × Keeps b st.heap st'.heap)
        (λ _. ⊥)
        (exec_loop k p q argc st)
unfolding exec_loop
exec_loop-run as' tail zero b p q argc acc ws st a ends f few n l s = absurd (omega arith)
exec_loop-run [] tail (suc k) b p q argc acc ws st a ends f few n l s =
    rw (append-nil ws) (elim ends.1 [
      | inl at_bar ↦ rw (found_in st tail bar s.cursor ∙ at_bar) (
          returns (
            record {
              cursor = SameText-peek_rest st.cursor bar ∙ s.cursor;
              wraps = s.wraps;
              node = s.node;
            },
            n,
            Keeps-refl b st.heap,
          ))
      | inr at_end ↦
          rw
            (
              peek_end st.cursor bar (s.cursor ∙ at_end),
              gettoken_end (peek st.cursor bar).rest
                  (SameText-peek_rest st.cursor bar ∙ s.cursor ∙ at_end),
            )
            (returns (
              record { cursor = SameText-end tail at_end; wraps = s.wraps; node = s.node },
              n,
              Keeps-refl b st.heap,
            ))
    ])
exec_loop-run (a ∷ as') tail (suc k) b p q argc acc ws st (blank, w, rs, all) ends f few n l s =
    let rest = render_arguments as' tail in
    let behind = render_redirections a.redirections rest in
    let x = a.before ++ (a.word ++ behind) in
    let bare = Bare-arguments as' tail all ends in
    rw
      (
        found_in st x bar s.cursor ∙ peek-word a.before a.word behind bar blank w not_bar,
        SameText-gettoken _ x (SameText-peek_rest st.cursor bar ∙ s.cursor)
            ∙ gettoken-word a.before a.word behind blank w
                (Stops-redirections a.redirections rest rs bare.0),
        mkcopy-Letters a.word w.1,
        s.node,
        n,
        set_argv-some p ws a.word _ (omega arith),
      )
      (let h1 = set st.heap p (Node.exec (pad max_args (ws ++ a.word ∷ []))) in
        let same = length-set st.heap p (Node.exec (pad max_args (ws ++ a.word ∷ []))) in
        let room : leb max_args (length ws + 1) ≡ false = ground arith in
        let longer = length-append ws (a.word ∷ []) in
        rw
          (
            room,
            push-append a.redirections (all_redirections as') acc,
            ← append_assoc ws (a.word ∷ []) (words as'),
          )
          (bind
            (parse_redirects-run a.redirections rest k p q acc (ws ++ a.word ∷ []) _ rs bare
              (omega arith)
              (record {
                cursor = SameText-skip_spaces behind;
                wraps = Wraps-set _ s.wraps;
                node = get_elem?-set_self st.heap p _ (lt-of-get_elem? st.heap p s.node);
              }))
            λ q' st' (built, keeps).
              mono
                (exec_loop-run as' tail k b p q' (length ws + 1) (push a.redirections acc)
                  (ws ++ a.word ∷ []) st' (AllArguments-IsStart as' all) ends (omega arith)
                  (omega arith) (omega arith) l built)
                (λ r st'' (built', len, keeps'). (
                  built',
                  len,
                  Keeps-trans
                      (Keeps-trans (Keeps-set b st.heap p _ l) keeps
                        (omega (arith, lt-of-get_elem? st.heap p s.node)))
                      keeps' (le_refl b),
                ))
                (λ e x. x)))

-- What a parsed stage or pipeline leaves: a command, and the older nodes as they were.
pub record Parsed (h : Heap) (c : Command) (tail : Text) (q : ℕ) (st : Parse) : Type 0 where
  pub cursor : SameText st.cursor tail
  pub denotes : Denotes st.heap q c
  pub keeps : Keeps (length h) h st.heap

IsStart_peek :
    (as' : List Argument) (tail : Text)
    → IsStart as'
    → Ends tail
    → (peek (render_arguments as' tail) redirections).found ≡ false
IsStart_peek [] tail a ends = ends.0.1
IsStart_peek (a ∷ as') tail (b, w, rs, all) ends =
    peek-word a.before a.word _ redirections b w not_redirection

-- The end of `parse_exec`: the nodes stand for the stage.
Parsed-stage :
    {h : Heap} {q : ℕ} {tail : Text} {st : Parse} (rs : List Redirection) (ws : List Text)
    → Built (length h) q (push rs []) ws tail st
    → length ws ≤ 5
    → Keeps (length h) h st.heap
    → Parsed h (redirected (Command.exec ws) rs) tail q st
Parsed-stage {h} {st} rs ws s few keeps = record {
  cursor = s.cursor;
  denotes =
      rw (redirected-outer rs [] (Command.exec ws))
        (rw (arguments-pad max_args ws (omega arith)) at (Wraps-Denotes s.wraps s.node));
  keeps = keeps;
}

-- A stage that begins with a word, or is empty, is parsed to the command that it means.
pub parse_exec-run :
    (as' : List Argument) (tail : Text) (k : ℕ) (st : Parse)
    → IsStart as'
    → Ends tail
    → weight as' < k
    → length as' ≤ 5
    → SameText st.cursor (render_arguments as' tail)
    → Ensures
        (Parsed st.heap (redirected (Command.exec (words as')) (all_redirections as')) tail)
        (λ _. ⊥)
        (parse_exec k st)
unfolding parse_exec command_create_exec
parse_exec-run as' tail k st a ends f few s =
    let p = length st.heap in
    let new = Node.exec (pad max_args []) in
    let start = record st { heap = st.heap ++ new ∷ [] } in
    rw
      (parse_redirects_none k p start (omega arith)
        (found_in start (render_arguments as' tail) redirections s ∙ IsStart_peek as' tail a ends))
      (bind
        (exec_loop-run as' tail k p p p 0 [] [] _ a ends f (omega arith) refl (le_refl p) (record {
          cursor = SameText-peek_rest st.cursor redirections ∙ s;
          wraps = here;
          node = get_elem?-end st.heap new;
        }))
        λ r st' (built, len, keeps).
          let few' : length (words as') ≤ 5 = omega (arith, length-words as') in
          rw (built.node, len, set_argv-none p (words as') st' (omega arith))
            (returns (
              Parsed-stage (all_redirections as') (words as')
                (record {
                  cursor = built.cursor;
                  wraps = Wraps-set _ built.wraps;
                  node = get_elem?-set_self st'.heap p _ (lt-of-get_elem? st'.heap p built.node);
                })
                few'
                (Keeps-trans (Keeps-trans (Keeps-append p st.heap (new ∷ [])) keeps (le_refl p))
                  (Keeps-set p st'.heap p _ (le_refl p)) (le_refl p)))))
