-- ===== src/Shell/Input.antt =====
-- `scan_cmd` of src/shell/shell.c, without its prompt, and the loop that reads until it fails.
use sysprog_solutions.Common.{
  [], ◌∷◌, some, none, zero, suc, ℕ, refl, true, false, inl, inr, ◌++◌, ◌-◌, ◌≢◌, if◌then◌else◌,
  arith, length, Bool, List, Option, ◌<◌, ◌≡◌, ◌≤◌, Bool-cases, replicate, ◌==◌, not, ap, ◌∙◌,
}
use sysprog_solutions.Shell.Lexer.{Text, c_string, deref}
use sysprog_solutions.Shell.Lexer.Progress.{NoNul}

-- What `fgets` takes from the input into `room` bytes: up to the end of the line, which it takes too.
pub fgets : ℕ → Text → Text
fgets zero s = []
fgets (suc room) [] = []
fgets (suc room) (c ∷ s) = let rest = fgets room s in if c == b'\n' then c ∷ [] else c ∷ rest

pub left_by_fgets : ℕ → Text → Text
left_by_fgets zero s = s
left_by_fgets (suc room) [] = []
left_by_fgets (suc room) (c ∷ s) = let rest = left_by_fgets room s in if c == b'\n' then s else rest

-- `str`, whether 0 is returned, and the input that is left.
pub record Scan : Type 0 where
  pub str : Text
  pub ok : Bool
  pub rest : Text

abbrev pub scanned : ℕ → Text → Text → Scan
scanned len taken rest =
    let str = taken ++ replicate (len - length taken) 0 in
    record { str = str; ok = not (deref str == 0); rest = rest }

-- `memset` clears the buffer before `fgets`, which writes one byte less than `len` and a NUL.
pub scan_cmd : ℕ → Text → Scan
scan_cmd len input = scanned len (fgets (len - 1) input) (left_by_fgets (len - 1) input)

-- The lines of a loop `while (scan_cmd(buf, len) >= 0)`.
abbrev pub more : Text → Option (List Text) → Option (List Text)
more line none = none
more line (some lines) = some (line ∷ lines)

pub scan_all : ℕ → ℕ → Text → Option (List Text)
scan_all zero len input = none
scan_all (suc rounds) len input =
    let scan = scan_cmd len input in
    elim scan.ok [
      | true ↦ more (c_string scan.str) (scan_all rounds len scan.rest)
      | false ↦ some []
    ]

abbrev pub flat : List Text → Text
flat [] = []
flat (l ∷ ls) = l ++ flat ls

-- No line is empty or fills the buffer, and a line end is only at the end of a line.
abbrev pub OneLine : Text → Type 0
OneLine [] = ⊥
OneLine (c ∷ []) = Unit
OneLine (c ∷ d ∷ s) = (c ≢ b'\n') × OneLine (d ∷ s)

abbrev pub AllLines : ℕ → List Text → Type 0
AllLines len [] = Unit
AllLines len (l ∷ ls) = OneLine l × (length l < len) × AllLines len ls

fgets-split : (room : ℕ) (s : Text) → fgets room s ++ left_by_fgets room s ≡ s
unfolding fgets left_by_fgets
fgets-split zero s = refl
fgets-split (suc room) [] = refl
fgets-split (suc room) (c ∷ s) = elim (Bool-cases (c == b'\n')) [
  | inl end ↦ rw end refl
  | inr inside ↦ rw inside (ap (◌∷◌ c) (fgets-split room s))
]

fgets-NoNul : (room : ℕ) (s : Text) → NoNul s → NoNul (fgets room s) × NoNul (left_by_fgets room s)
unfolding fgets left_by_fgets
fgets-NoNul zero s h = (tt, h)
fgets-NoNul (suc room) [] h = (tt, tt)
fgets-NoNul (suc room) (c ∷ s) h = ground (arith, fgets-NoNul room s h.1)

fgets-length : (room : ℕ) (s : Text) → length (fgets room s) ≤ room
unfolding fgets
fgets-length zero s = omega arith
fgets-length (suc room) [] = omega arith
fgets-length (suc room) (c ∷ s) = ground (arith, fgets-length room s)

fgets-OneLine : (room c : ℕ) (s : Text) → OneLine (fgets (suc room) (c ∷ s))
unfolding fgets
fgets-OneLine zero c s = ground arith
fgets-OneLine (suc room) c [] = ground arith
fgets-OneLine (suc room) c (d ∷ s) = elim (Bool-cases (c == b'\n')) [
  | inl end ↦ rw end tt
  | inr inside ↦
      let ih = fgets-OneLine room d s in
      let apart : c ≢ b'\n' = ground arith in
      elim (Bool-cases (d == b'\n')) [
        | inl end ↦ rw (inside, end) (apart, tt)
        | inr on ↦ rw (inside, on) (apart, rw on at ih)
      ]
]

c_string-padded : (s : Text) (n : ℕ) → NoNul s → c_string (s ++ replicate (suc n) 0) ≡ s
unfolding c_string
c_string-padded [] n h = refl
c_string-padded (c ∷ s) n h =
    let apart : (c == 0) ≡ false = ground arith in rw apart (ap (◌∷◌ c) (c_string-padded s n h.1))

deref-fgets : (room c : ℕ) (s t : Text) → deref (fgets (suc room) (c ∷ s) ++ t) ≡ c
unfolding fgets
deref-fgets room c s t = elim (Bool-cases (c == b'\n')) [
  | inl end ↦ rw end refl
  | inr on ↦ rw on refl
]

left_by_fgets-lt :
    (room c : ℕ) (s : Text) → length (left_by_fgets (suc room) (c ∷ s)) < length (c ∷ s)
unfolding left_by_fgets
left_by_fgets-lt zero c s = ground arith
left_by_fgets-lt (suc room) c [] = ground arith
left_by_fgets-lt (suc room) c (d ∷ s) = elim (Bool-cases (c == b'\n')) [
  | inl end ↦ rw end (omega arith)
  | inr on ↦ rw on (omega (arith, left_by_fgets-lt room d s))
]

scan_cmd_end : (m : ℕ) → (scan_cmd (suc (suc m)) []).ok ≡ false
unfolding scan_cmd fgets
scan_cmd_end m =
    let room : suc (suc m) - 1 ≡ suc m = omega arith in
    let pad : suc (suc m) - 0 ≡ suc (suc m) = omega arith in rw (room, pad) refl

scan_cmd-nonempty :
    (m c : ℕ) (s : Text)
    → NoNul (c ∷ s)
    → ((scan_cmd (suc (suc m)) (c ∷ s)).ok ≡ true)
      × (c_string (scan_cmd (suc (suc m)) (c ∷ s)).str ≡ fgets (suc m) (c ∷ s))
      × ((scan_cmd (suc (suc m)) (c ∷ s)).rest ≡ left_by_fgets (suc m) (c ∷ s))
unfolding scan_cmd
scan_cmd-nonempty m c s h =
    let line = fgets (suc m) (c ∷ s) in
    let room : suc (suc m) - 1 ≡ suc m = omega arith in
    let pad : suc (suc m) - length line ≡ suc (suc m - length line) =
      omega (arith, fgets-length (suc m) (c ∷ s)) in
    let first : (deref (line ++ replicate (suc (suc m - length line)) 0) == 0) ≡ false =
      rw (deref-fgets m c s (replicate (suc (suc m - length line)) 0)) (ground arith) in
    rw (room, pad)
      (
        rw first refl,
        c_string-padded line (suc m - length line) ((fgets-NoNul (suc m) (c ∷ s) h).0),
        refl,
      )

scan_all_step :
    (rounds len : ℕ) (input : Text) {l r : Text} {ls : List Text}
    → (scan_cmd len input).ok ≡ true
    → c_string (scan_cmd len input).str ≡ l
    → (scan_cmd len input).rest ≡ r
    → scan_all rounds len r ≡ some ls
    → scan_all (suc rounds) len input ≡ some (l ∷ ls)
unfolding scan_all
scan_all_step rounds len input ok str rest e = rw (scan_all, ok, str, rest, e) refl

-- `scan_cmd` with a buffer of two bytes or more, called until it fails on a text with no NUL, ends:
-- the lines that it gives make up the text, none of them is empty, each fits into the buffer with
-- its NUL, and a line end stands only at the end of a line.
pub scan_all-flat :
    (rounds m : ℕ) (input : Text)
    → NoNul input
    → length input < rounds
    → (lines : List Text) × (scan_all rounds (suc (suc m)) input ≡ some lines)
      × (flat lines ≡ input)
      × AllLines (suc (suc m)) lines
unfolding scan_all
scan_all-flat zero m input h l = absurd (omega arith)
scan_all-flat (suc rounds) m [] h l = ([], rw (scan_all, scan_cmd_end m) refl, refl, tt)
scan_all-flat (suc rounds) m (c ∷ s) h l =
    let (ok, str, rest) = scan_cmd-nonempty m c s h in
    let split = fgets-split (suc m) (c ∷ s) in
    let one = fgets-OneLine m c s in
    let (lines, e, flat, all) =
      scan_all-flat rounds m (left_by_fgets (suc m) (c ∷ s)) (fgets-NoNul (suc m) (c ∷ s) h).1
        (omega (arith, left_by_fgets-lt m c s)) in
    (
      fgets (suc m) (c ∷ s) ∷ lines,
      scan_all_step rounds (suc (suc m)) (c ∷ s) ok str rest e,
      ap (◌++◌ (fgets (suc m) (c ∷ s))) flat ∙ split,
      (one, omega (arith, fgets-length (suc m) (c ∷ s)), all),
    )
