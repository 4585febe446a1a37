-- ===== src/Shell/Parser/Redirections.antt =====
-- `parse_redirects` of shell.c on the redirections of Syntax.
use sysprog_solutions.Common.{
  ℕ, zero, suc, ◌<◌, ◌≡◌, true, false, List, [], ◌∷◌, ◌++◌, ap, ◌∙◌, arith, length, Ensures,
  returns, mono, ok, get_elem?, some, refl, get_elem?-end, lt-of-get_elem?, get_elem?-append,
  length-append,
}
use sysprog_solutions.Shell.Lexer.{Text, peek, input, output, Peek}
use sysprog_solutions.Shell.Syntax.{
  from, to, Redirection, render_redirections, AllRedirections, Direction, token_type, mode_of,
  fd_of,
}
use sysprog_solutions.Shell.Heap.{Parse, command_create_redirect, Node, max_args}
use sysprog_solutions.Shell.Parser.{redirections, redirect_case, parse_redirects}
use sysprog_solutions.Shell.Lexer.Tokens.{
  Stops, SameText, Blank, symbol_of, Letters, mkcopy-Letters, SameText-peek_rest, peek-symbol,
  IsSymbol, SameText-peek, SameText-gettoken, gettoken-symbol, SameText-skip_spaces, gettoken-word,
}
use sysprog_solutions.Shell.Command.Frame.{
  push, Keeps, pad, Keeps-refl, Wraps-append, Keeps-trans, Keeps-append,
}
use sysprog_solutions.Shell.Command.{Wraps, wrap}

-- A text that ends a list of redirections.
abbrev pub Bare : Text → Type 0
Bare s = Stops s × ((peek s redirections).found ≡ false)

pub Stops-Blank : (g s : Text) → Blank g → Stops s → Stops (g ++ s)
Stops-Blank [] s b h = h
Stops-Blank (c ∷ g) s (e, z, b) h = ground arith

pub Stops-redirections :
    (rs : List Redirection) (tail : Text)
    → AllRedirections rs
    → Stops tail
    → Stops (render_redirections rs tail)
Stops-redirections [] tail a h = h
Stops-redirections (r ∷ rs) tail ((b, b', w), a) h =
    let s = r.between ++ (r.file ++ render_redirections rs tail) in
    Stops-Blank r.before (symbol_of (token_type r.direction) ∷ s) b (symbol r.direction s)
  where
    symbol : (d : Direction) (s : Text) → Stops (symbol_of (token_type d) ∷ s)
    symbol from s = refl
    symbol to s = refl

redirect_case-ok :
    (d : Direction) (q : ℕ) (file : Text) (st : Parse)
    → Letters file
    → redirect_case (token_type d) q file st
      ≡ ok (
        length st.heap,
        record st { heap = st.heap ++ Node.redirect q file (mode_of d) (fd_of d) ∷ [] },
      )
unfolding redirect_case command_create_redirect
redirect_case-ok from q file st l = rw (mkcopy-Letters file l)
redirect_case-ok to q file st l = rw (mkcopy-Letters file l)

-- What a run of the parser leaves of a stage that began with the node `p` over `b` older nodes.
pub record Built (p q : ℕ) (acc : List Redirection) (ws : List Text) (tail : Text) (st : Parse)
    : Type 0 where
  pub cursor : SameText st.cursor tail
  pub wraps : Wraps st.heap p q acc
  pub node : get_elem? st.heap p ≡ some (Node.exec (pad max_args ws))

pub found_in :
    (st : Parse) (s toks : Text)
    → SameText st.cursor s
    → (peek st.cursor toks).found ≡ (peek s toks).found
found_in st s toks e = ap (λ (x : Peek). x.found) (SameText-peek st.cursor s toks e)

direction_symbol : (d : Direction) → IsSymbol (token_type d)
direction_symbol from = tt
direction_symbol to = tt

direction_found :
    (d : Direction) (g s : Text)
    → Blank g
    → (peek (g ++ symbol_of (token_type d) ∷ s) redirections).found ≡ true
direction_found from g s b = peek-symbol g input s redirections b tt
direction_found to g s b = peek-symbol g output s redirections b tt

-- The redirections behind a word wrap the command, from the inside to the outside.
pub parse_redirects-run :
    (rs : List Redirection) (tail : Text) (k p q : ℕ) (acc : List Redirection) (ws : List Text)
    (st : Parse)
    → AllRedirections rs
    → Bare tail
    → length rs < k
    → Built p q acc ws (render_redirections rs tail) st
    → Ensures
        (λ q' st'. Built p q' (push rs acc) ws tail st' × Keeps (length st.heap) st.heap st'.heap)
        (λ _. ⊥)
        (parse_redirects k q st)
unfolding parse_redirects
parse_redirects-run rs tail zero p q acc ws st a bare f s = absurd (omega arith)
parse_redirects-run [] tail (suc k) p q acc ws st a bare f s =
    rw (found_in st tail redirections s.cursor ∙ bare.1) (
      returns (
        record {
          cursor = SameText-peek_rest st.cursor redirections ∙ s.cursor;
          wraps = s.wraps;
          node = s.node;
        },
        Keeps-refl _ _,
      ))
parse_redirects-run (r ∷ rs) tail (suc k) p q acc ws st ((b, b', w), a) bare f s =
    let t = token_type r.direction in
    let rest = render_redirections rs tail in
    let arg = r.between ++ (r.file ++ rest) in
    let x = r.before ++ symbol_of t ∷ arg in
    let new = Node.redirect q r.file (mode_of r.direction) (fd_of r.direction) in
    rw
      (
        found_in st x redirections s.cursor ∙ direction_found r.direction r.before arg b,
        SameText-gettoken _ x (SameText-peek_rest st.cursor redirections ∙ s.cursor)
            ∙ gettoken-symbol r.before t arg b (direction_symbol r.direction),
        SameText-gettoken _ arg (SameText-skip_spaces arg)
            ∙ gettoken-word r.between r.file rest b' w (Stops-redirections rs tail a bare.0),
        redirect_case-ok r.direction q r.file _ w.1,
      )
      (mono
        (parse_redirects-run rs tail k p (length st.heap) (r ∷ acc) ws _ a bare (omega arith)
          (record {
            cursor = SameText-skip_spaces rest;
            wraps =
                wrap (get_elem?-end st.heap new)
                  (λ e. absurd (omega (arith, lt-of-get_elem? st.heap p s.node)))
                  (Wraps-append (new ∷ []) s.wraps);
            node = get_elem?-append st.heap (new ∷ []) p s.node;
          }))
        (λ q' st' (built, keeps). (
          built,
          Keeps-trans (Keeps-append (length st.heap) st.heap (new ∷ [])) keeps
              (omega (arith, length-append st.heap (new ∷ []))),
        ))
        (λ e x. x))

-- With no redirection in front, `parse_redirects` skips blanks at most.
pub parse_redirects_none :
    (k q : ℕ) (st : Parse)
    → 0 < k
    → (peek st.cursor redirections).found ≡ false
    → parse_redirects k q st ≡ ok (q, record st { cursor = (peek st.cursor redirections).rest })
unfolding parse_redirects
parse_redirects_none zero q st h e = absurd (omega arith)
parse_redirects_none (suc k) q st h e = rw e
