-- ===== src/Shell/Lexer/Progress.antt =====
-- The lexer of shell.c moves forward: where a token is found the rest of the line is shorter, and
-- where none is found the line is at its end.
use sysprog_solutions.Common.{
  ◌≤◌, ◌<◌, ◌≡◌, ◌≢◌, refl, false, [], ◌∷◌, arith, length, ℕ, ◌⊎◌, inl, Bool-cases, inr, true, ap,
  ◌==◌,
}
use sysprog_solutions.Shell.Lexer.{
  Text, invalid, c_string, skip_spaces, after_word, token_at, gettoken, peek, strchr, whitespaces,
  is_invalid, peeked, deref,
}

-- A C string's bytes hold no NUL.
abbrev pub NoNul : Text → Type 0
NoNul [] = Unit
NoNul (c ∷ s) = (c ≢ 0) × NoNul s

pub c_string-NoNul : (s : Text) → NoNul (c_string s)
unfolding c_string
c_string-NoNul [] = tt
c_string-NoNul (c ∷ s) = ground (arith, c_string-NoNul s)

skip_spaces-NoNul : (s : Text) → NoNul s → NoNul (skip_spaces s)
unfolding skip_spaces
skip_spaces-NoNul [] h = tt
skip_spaces-NoNul (c ∷ s) h = ground (arith, skip_spaces-NoNul s h.1)

after_word-NoNul : (s : Text) → NoNul s → NoNul (after_word s)
unfolding after_word
after_word-NoNul [] h = tt
after_word-NoNul (c ∷ s) h = ground (arith, after_word-NoNul s h.1)

pub length-skip_spaces : (s : Text) → length (skip_spaces s) ≤ length s
unfolding skip_spaces
length-skip_spaces [] = omega arith
length-skip_spaces (c ∷ s) = ground (arith, length-skip_spaces s)

length-after_word : (s : Text) → length (after_word s) ≤ length s
unfolding after_word
length-after_word [] = omega arith
length-after_word (c ∷ s) = ground (arith, length-after_word s)

-- What `token_at` does at a text that starts with no blank.
token_at-NoNul : (s : Text) → NoNul s → NoNul (token_at s).rest
unfolding token_at
token_at-NoNul [] h = tt
token_at-NoNul (c ∷ s) h = ground (
  arith,
  skip_spaces-NoNul s h.1,
  skip_spaces-NoNul (after_word (c ∷ s)) (after_word-NoNul (c ∷ s) h),
)

pub gettoken-NoNul : (s : Text) → NoNul s → NoNul (gettoken s).rest
unfolding gettoken
gettoken-NoNul s h = token_at-NoNul (skip_spaces s) (skip_spaces-NoNul s h)

token_at-lt :
    (c : ℕ) (s : Text)
    → strchr whitespaces c ≡ false
    → length (token_at (c ∷ s)).rest < length (c ∷ s)
unfolding token_at
token_at-lt c s blank =
    ground (arith, length-skip_spaces s, length-skip_spaces (after_word s), length-after_word s)

-- Every token but the end of the line takes at least one byte.
pub gettoken-lt :
    (s : Text)
    → NoNul s
    → ((gettoken s).type ≡ invalid) × ((gettoken s).rest ≡ [])
      ⊎ (length (gettoken s).rest < length s)
unfolding gettoken skip_spaces
gettoken-lt [] h = inl (refl, refl)
gettoken-lt (c ∷ s) h = elim (Bool-cases (strchr whitespaces c)) [
  | inl blank ↦
      rw blank (elim (gettoken-lt s h.1) [ inl (e, f) ↦ inl (e, f) | inr l ↦ inr (omega arith) ])
  | inr black ↦ rw black (inr (token_at-lt c s black))
]

pub peek-NoNul : (s toks : Text) → NoNul s → NoNul (peek s toks).rest
unfolding peek
peek-NoNul s toks h = skip_spaces-NoNul s h

pub length-peek : (s toks : Text) → length (peek s toks).rest ≤ length s
unfolding peek
length-peek s toks = length-skip_spaces s

pub gettoken-lt_of_found :
    (s : Text)
    → NoNul s
    → is_invalid (gettoken s).type ≡ false
    → length (gettoken s).rest < length s
gettoken-lt_of_found s h found = ground (arith, gettoken-lt s h)

pub gettoken-nil_of_invalid :
    (s : Text) → NoNul s → is_invalid (gettoken s).type ≡ true → (gettoken s).rest ≡ []
unfolding gettoken skip_spaces token_at
gettoken-nil_of_invalid [] h found = refl
gettoken-nil_of_invalid (c ∷ s) h found = ground (arith, gettoken-nil_of_invalid s h.1)

pub length-gettoken : (s : Text) → NoNul s → length (gettoken s).rest ≤ length s
length-gettoken s h = ground (arith, gettoken-lt s h)

pub skip_spaces-skip_spaces : (s : Text) → skip_spaces (skip_spaces s) ≡ skip_spaces s
unfolding skip_spaces
skip_spaces-skip_spaces [] = refl
skip_spaces-skip_spaces (c ∷ s) = ground (arith, skip_spaces-skip_spaces s)

-- A second `peek` finds what the first found, and stays.
pub peek-again : (s toks : Text) → peek (peek s toks).rest toks ≡ peek s toks
unfolding peek
peek-again s toks = ap (λ t. peeked t toks) (skip_spaces-skip_spaces s)

pub peek-nil_rest : (toks : Text) → (peek [] toks).rest ≡ []
unfolding peek skip_spaces
peek-nil_rest toks = refl

token_at-valid : (s : Text) → (deref s == 0) ≡ false → is_invalid (token_at s).type ≡ false
unfolding token_at
token_at-valid [] h = cc
token_at-valid (c ∷ s) h = ground arith

-- Where `peek` finds a symbol, `gettoken` finds a token.
pub gettoken-valid_of_peek :
    (s toks : Text)
    → (peek s toks).found ≡ true
    → is_invalid (gettoken (peek s toks).rest).type ≡ false
unfolding peek gettoken
gettoken-valid_of_peek s toks h =
    rw skip_spaces-skip_spaces (token_at-valid (skip_spaces s) (ground arith))
