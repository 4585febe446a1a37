-- ===== src/Shell/Lexer/Tokens.antt =====
-- What the lexer of shell.c reads at blanks, words and symbols.
use sysprog_solutions.Common.{
  ℕ, ◌≡◌, ◌≢◌, refl, true, false, [], ◌∷◌, ◌++◌, arith, ap, sym, append-nil, ◌∙◌,
}
use sysprog_solutions.Shell.Lexer.Progress.{NoNul, skip_spaces-skip_spaces}
use sysprog_solutions.Shell.Lexer.{
  pipe, input, output, Text, TokenType, letter, Token, peeked, skip_spaces, word, after_word, token,
  token_at, gettoken, peek, is_letter, whitespaces, strchr, c_string, mkcopy, invalid,
}

-- Blanks only.
abbrev pub Blank : Text → Type 0
Blank [] = Unit
Blank (c ∷ g) = (strchr whitespaces c ≡ true) × (c ≢ 0) × Blank g

-- Bytes that are neither blanks nor symbols.
abbrev pub Letters : Text → Type 0
Letters [] = Unit
Letters (c ∷ w) = (is_letter c ≡ true) × Letters w

abbrev pub IsWord : Text → Type 0
IsWord w = (w ≢ []) × Letters w

-- No letter comes first.
abbrev pub Stops : Text → Type 0
Stops [] = Unit
Stops (c ∷ s) = is_letter c ≡ false

-- Two texts that differ in their leading blanks at most.
abbrev pub SameText : Text → Text → Type 0
SameText s t = skip_spaces s ≡ skip_spaces t

pub skip_spaces-Blank : (g s : Text) → Blank g → skip_spaces (g ++ s) ≡ skip_spaces s
unfolding skip_spaces
skip_spaces-Blank [] s b = refl
skip_spaces-Blank (c ∷ g) s (e, z, b) = rw e (skip_spaces-Blank g s b)

skip_spaces-letter : (c : ℕ) (s : Text) → is_letter c ≡ true → skip_spaces (c ∷ s) ≡ c ∷ s
unfolding skip_spaces
skip_spaces-letter c s e = ground arith

word-append : (w s : Text) → Letters w → Stops s → word (w ++ s) ≡ w
unfolding word
word-append [] [] l h = refl
word-append [] (c ∷ s) l h = rw h
word-append (c ∷ w) s (e, l) h = rw e (ap (◌∷◌ c) (word-append w s l h))

after_word-append : (w s : Text) → Letters w → Stops s → after_word (w ++ s) ≡ s
unfolding after_word
after_word-append [] [] l h = refl
after_word-append [] (c ∷ s) l h = rw h
after_word-append (c ∷ w) s (e, l) h = rw e (after_word-append w s l h)

abbrev pub token_of : TokenType → Text → Text → Token
token_of t w s = record { type = t; text = w; rest = skip_spaces s }

token_at-letter :
    (c : ℕ) (s : Text)
    → is_letter c ≡ true
    → token_at (c ∷ s) ≡ token_of letter (word (c ∷ s)) (after_word (c ∷ s))
unfolding token_at token
token_at-letter c s e = ground arith

-- A word behind any blanks is one token.
pub gettoken-word :
    (g w s : Text) → Blank g → IsWord w → Stops s → gettoken (g ++ (w ++ s)) ≡ token_of letter w s
unfolding gettoken
gettoken-word g [] s b (ne, l) h = absurd (ne refl)
gettoken-word g (c ∷ w) s b (ne, (e, l)) h = rw (
  skip_spaces-Blank g (c ∷ (w ++ s)) b,
  skip_spaces-letter c (w ++ s) e,
  token_at-letter c (w ++ s) e,
  word-append (c ∷ w) s (e, l) h,
  after_word-append (c ∷ w) s (e, l) h,
)

pub SameText-gettoken : (s t : Text) → SameText s t → gettoken s ≡ gettoken t
unfolding gettoken
SameText-gettoken s t e = ap token_at e

pub SameText-peek : (s t toks : Text) → SameText s t → peek s toks ≡ peek t toks
unfolding peek
SameText-peek s t toks e = ap (λ r. peeked r toks) e

pub peek-word :
    (g w s toks : Text)
    → Blank g
    → IsWord w
    → ((c : ℕ) → is_letter c ≡ true → strchr toks c ≡ false)
    → (peek (g ++ (w ++ s)) toks).found ≡ false
unfolding peek
peek-word g [] s toks b (ne, l) h = absurd (ne refl)
peek-word g (c ∷ w) s toks b (ne, (e, l)) h =
    rw (skip_spaces-Blank g (c ∷ (w ++ s)) b, skip_spaces-letter c (w ++ s) e, h c e) (ground arith)

pub SameText-skip_spaces : (s : Text) → SameText (skip_spaces s) s
SameText-skip_spaces s = skip_spaces-skip_spaces s

pub SameText-peek_rest : (s toks : Text) → SameText (peek s toks).rest s
unfolding peek
SameText-peek_rest s toks = skip_spaces-skip_spaces s

-- The tokens of one byte.
abbrev pub symbol_of : TokenType → ℕ
symbol_of pipe = b'|'
symbol_of input = b'<'
symbol_of output = b'>'
symbol_of _ = 0

abbrev pub IsSymbol : TokenType → Type 0
IsSymbol pipe = Unit
IsSymbol input = Unit
IsSymbol output = Unit
IsSymbol _ = ⊥

token_at-symbol :
    (t : TokenType) (s : Text)
    → IsSymbol t
    → token_at (skip_spaces (symbol_of t ∷ s)) ≡ token_of t (symbol_of t ∷ []) s
unfolding token_at token skip_spaces
token_at-symbol pipe s h = refl
token_at-symbol input s h = refl
token_at-symbol output s h = refl
token_at-symbol _ s h = elim h [ ]

pub gettoken-symbol :
    (g : Text) (t : TokenType) (s : Text)
    → Blank g
    → IsSymbol t
    → gettoken (g ++ symbol_of t ∷ s) ≡ token_of t (symbol_of t ∷ []) s
unfolding gettoken
gettoken-symbol g t s b h = rw (skip_spaces-Blank g (symbol_of t ∷ s) b) (token_at-symbol t s h)

peeked-symbol :
    (t : TokenType) (s toks : Text)
    → IsSymbol t
    → (peeked (skip_spaces (symbol_of t ∷ s)) toks).found ≡ strchr toks (symbol_of t)
unfolding skip_spaces
peeked-symbol pipe s toks h = refl
peeked-symbol input s toks h = refl
peeked-symbol output s toks h = refl
peeked-symbol _ s toks h = elim h [ ]

pub peek-symbol :
    (g : Text) (t : TokenType) (s toks : Text)
    → Blank g
    → IsSymbol t
    → (peek (g ++ symbol_of t ∷ s) toks).found ≡ strchr toks (symbol_of t)
unfolding peek
peek-symbol g t s toks b h = rw (skip_spaces-Blank g (symbol_of t ∷ s) b) (peeked-symbol t s toks h)

pub c_string-NoNul_self : (s : Text) → NoNul s → c_string s ≡ s
unfolding c_string
c_string-NoNul_self [] h = refl
c_string-NoNul_self (c ∷ s) h = ground (arith, c_string-NoNul_self s h.1)

pub Letters-NoNul : (w : Text) → Letters w → NoNul w
Letters-NoNul [] l = tt
Letters-NoNul (c ∷ w) (e, l) = (λ z. ground arith, Letters-NoNul w l)

pub mkcopy-Letters : (w : Text) → Letters w → mkcopy w ≡ w
unfolding mkcopy
mkcopy-Letters w l = c_string-NoNul_self w (Letters-NoNul w l)

pub peek_end : (s toks : Text) → skip_spaces s ≡ [] → (peek s toks).found ≡ false
unfolding peek
peek_end s toks e = rw e

pub gettoken_end : (s : Text) → skip_spaces s ≡ [] → gettoken s ≡ token_of invalid [] []
unfolding gettoken token_at token
gettoken_end s e = rw e

pub SameText-end : (s : Text) → skip_spaces s ≡ [] → SameText (skip_spaces []) s
unfolding skip_spaces
SameText-end s e = sym e

pub skip_spaces_nil : skip_spaces [] ≡ []
unfolding skip_spaces
skip_spaces_nil = refl

pub peek_rest_end : (s toks : Text) → skip_spaces s ≡ [] → (peek s toks).rest ≡ []
unfolding peek
peek_rest_end s toks e = e

pub skip_spaces_end : (g : Text) → Blank g → skip_spaces g ≡ []
skip_spaces_end g b =
    ap skip_spaces (sym (append-nil g)) ∙ skip_spaces-Blank g [] b ∙ skip_spaces_nil
