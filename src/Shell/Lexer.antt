-- ===== src/Shell/Lexer.antt =====
-- The lexer of src/shell/shell.c: `gettoken`, `peek`, `mkcopy`, and the TOKEN_TYPE of shell.h.
-- A pointer into the line is the text from it up to `end_str`; there the C code reads the NUL.
pub mod Progress
pub mod Tokens
use sysprog_solutions.Common.{
  ℕ, Bool, true, false, not, ◌&&◌, ◌||◌, List, [], ◌∷◌, ◌==◌, if◌then◌else◌,
}

abbrev pub Text : Type 0
Text = List ℕ

pub data TokenType : Type 0 where
  invalid letter pipe input output : TokenType

abbrev pub is_invalid : TokenType → Bool
is_invalid invalid = true
is_invalid _ = false

abbrev pub whitespaces : Text
whitespaces = b' ' ∷ b'\t' ∷ b'\r' ∷ b'\n' ∷ 11 ∷ []

abbrev pub symbols : Text
symbols = b'<' ∷ b'|' ∷ b'>' ∷ []

-- `strchr(set, c)` as a test: the NUL that ends `set` is found too.
abbrev pub strchr : Text → ℕ → Bool
strchr [] c = c == 0
strchr (x ∷ xs) c = c == x || strchr xs c

-- `*ptr`
abbrev pub deref : Text → ℕ
deref [] = 0
deref (c ∷ s) = c

-- The bytes of a C string in front of its NUL.
unfoldable pub c_string : Text → Text
c_string [] = []
c_string (c ∷ s) = if c == 0 then [] else c ∷ c_string s

-- `while (ptr < end_str && strchr(whitespaces, *ptr)) ++ptr;`
pub skip_spaces : Text → Text
skip_spaces [] = []
skip_spaces (c ∷ s) = if strchr whitespaces c then skip_spaces s else c ∷ s

abbrev pub is_letter : ℕ → Bool
is_letter c = not (strchr whitespaces c) && not (strchr symbols c)

-- The loop of the `default:` case: the bytes that it passes, and the rest.
pub word : Text → Text
word [] = []
word (c ∷ s) = if is_letter c then c ∷ word s else []

pub after_word : Text → Text
after_word [] = []
after_word (c ∷ s) = if is_letter c then after_word s else c ∷ s

-- What `gettoken` gives: the token, the bytes from `*out_str` to `*end_out_str`, and `*pp_str`.
pub record Token : Type 0 where
  pub type : TokenType
  pub text : Text
  pub rest : Text

token : TokenType → Text → Text → Token
unfolding skip_spaces
token t w s = record { type = t; text = w; rest = skip_spaces s }

-- The `switch` on the first byte behind the blanks, up to the end of `gettoken`.
unfoldable pub token_at : Text → Token
unfolding token word after_word skip_spaces
token_at [] = token invalid [] []
token_at (c ∷ s) =
    if c == 0
    then token invalid [] (c ∷ s)
    else if c == b'|'
    then token pipe (c ∷ []) s
    else if c == b'<'
    then token input (c ∷ []) s
    else if c == b'>'
    then token output (c ∷ []) s
    else token letter (word (c ∷ s)) (after_word (c ∷ s))

unfoldable pub gettoken : Text → Token
unfolding token_at skip_spaces
gettoken s = token_at (skip_spaces s)

-- `peek` moves the pointer past the blanks, and tests the byte there.
pub record Peek : Type 0 where
  pub found : Bool
  pub rest : Text

abbrev pub peeked : Text → Text → Peek
peeked s toks = record { found = not (deref s == 0) && strchr toks (deref s); rest = s }

unfoldable pub peek : Text → Text → Peek
unfolding skip_spaces
peek s toks = peeked (skip_spaces s) toks

-- `strncpy` of the bytes between the two pointers stops at a NUL.
unfoldable pub mkcopy : Text → Text
unfolding c_string
mkcopy w = c_string w
