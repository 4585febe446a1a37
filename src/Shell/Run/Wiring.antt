-- ===== src/Shell/Run/Wiring.antt =====
-- Which programs a command runs, and what their standard input and output are.
use sysprog_solutions.Common.{
  [], ◌∷◌, some, zero, suc, ℕ, refl, true, List, ◌≡◌, ◌<◌, ◌⊎◌, ◌++◌, ◌+◌, sym, ◌≤◌, arith, length,
  append_assoc, if◌then◌else◌,
}
use sysprog_solutions.Shell.Lexer.{Text}
use sysprog_solutions.Shell.Syntax.{Command, exec, pipe, redirect}
use sysprog_solutions.Shell.Descriptors.{ProcessName, Table, File, opened, at, write_end, read_end}
use sysprog_solutions.Shell.Run.{
  World, continue, Process, End, returned, launched, child_name, bin, and_each, usr_bin, next_name,
}

-- A program with its arguments, its input and its output.
pub record Wired : Type 0 where
  pub argv : List Text
  pub input : File
  pub output : File

-- The programs of a command run by the process `n`, with input `i` and output `o`: a redirection
-- replaces one of them, a pipe is the output of its left side and the input of its right side.
unfoldable pub wiring : Command → ProcessName → File → File → List Wired
wiring (exec argv) n i o = record { argv = argv; input = i; output = o } ∷ []
wiring (redirect c file mode zero) n i o = wiring c n (opened file mode) o
wiring (redirect c file mode (suc _)) n i o = wiring c n i (opened file mode)
wiring (pipe left right) n i o =
    wiring left (child_name n) i (write_end n)
    ++ wiring right (child_name (next_name n)) (read_end n) o

-- How many processes return from `run_cmd`.
unfoldable pub returns_of : Command → ℕ
returns_of (exec argv) = 0
returns_of (redirect c file mode fd) = returns_of c
returns_of (pipe left right) = suc (returns_of right)

-- No pipe, as on the left side of the pipes that the parser makes.
abbrev pub Single : Command → Type 0
Single (exec argv) = Unit
Single (pipe left right) = ⊥
Single (redirect c file mode fd) = Single c

-- Where `execv` finds a program: at the name itself, else in /bin, else in /usr/bin.
unfoldable pub path_of : World → Text → Text
path_of w name =
    if w.runs name then name else if w.runs (bin ++ name) then bin ++ name else usr_bin ++ name

-- The path is that of the program, and `execv` runs it.
abbrev pub Program : World → List Text → Text → Type 0
Program w [] path = ⊥
Program w (name ∷ args) path = (path ≡ path_of w name) × (w.runs path ≡ true)

-- The program is found, at a path that fits into the buffers.
abbrev pub Found : World → Text → Type 0
Found w name =
    (w.runs name ≡ true)
    ⊎ (((length name ≤ 94) × (w.runs (bin ++ name) ≡ true))
        ⊎ ((length name ≤ 90) × (w.runs (usr_bin ++ name) ≡ true)))

abbrev pub FoundFirst : World → List Text → Type 0
FoundFirst w [] = ⊥
FoundFirst w (name ∷ args) = Found w name

-- All programs are found, and all files opened.
abbrev pub Works : World → Command → Type 0
Works w (exec argv) = FoundFirst w argv
Works w (redirect c file mode fd) = (w.opens file mode ≡ true) × (fd < 2) × Works w c
Works w (pipe left right) = Single left × Works w left × Works w right

-- No system call fails for want of descriptors or processes.
pub record Plenty (w : World) : Type 0 where
  pub pipes : (p : Process) → w.pipes p ≡ true
  pub forks : (p : Process) → w.forks p ≡ true

-- Input and output at 0 and 1, and at the others what `base` has.
pub record Std (base : Table) (i o : File) (t : Table) : Type 0 where
  pub input : at t 0 ≡ some i
  pub output : at t 1 ≡ some o
  pub others : (n : ℕ) → 2 ≤ n → at t n ≡ at base n

-- The processes that launch a program launch those of the list, in order, each at its path and with
-- just these descriptors; `k` processes return, and none ends otherwise.
pub data Matches (w : World) (base : Table) : List End → List Wired → ℕ → Type 0 where
  nil : Matches w base [] [] 0
  launch :
      {path : Text} {t : Table} {v : Wired} {es : List End} {vs : List Wired} {k : ℕ}
      → Program w v.argv path
      → Std base v.input v.output t
      → Matches w base es vs k
      → Matches w base (launched path v.argv t ∷ es) (v ∷ vs) k
  return :
      {p : Process} {es : List End} {vs : List Wired} {k : ℕ}
      → Matches w base es vs k
      → Matches w base (returned p ∷ es) vs (suc k)

module _ {w : World} {base : Table} where
  pub Matches-append :
      {es fs : List End} {vs us : List Wired} {k m : ℕ}
      → Matches w base es vs k
      → Matches w base fs us m
      → Matches w base (es ++ fs) (vs ++ us) (k + m)
  Matches-append {m} nil h = let e : 0 + m ≡ m = omega arith in rw e h
  Matches-append (launch at s g) h = launch at s (Matches-append g h)
  Matches-append {m} (return {k} g) h =
      let e : suc k + m ≡ suc (k + m) = omega arith in rw e (return (Matches-append g h))

  -- Where no process returns, the code behind is not run.
  pub continue-launched :
      {es : List End} {vs : List Wired} {n : ℕ} (k : Process → List End)
      → Matches w base es vs n
      → n ≡ 0
      → continue es k ≡ es
  unfolding continue
  continue-launched k nil e = refl
  continue-launched k (launch at s g) e = rw (continue-launched k g e) refl
  continue-launched k (return g) e = absurd (omega arith)

  -- Code behind the run that changes the table of each process that returns.
  pub continue-Matches :
      (f : Process → Process) {es : List End} {vs : List Wired} {n : ℕ}
      → Matches w base es vs n
      → Matches w base (continue es (λ p. returned (f p) ∷ [])) vs n
  unfolding continue
  continue-Matches f nil = nil
  continue-Matches f (launch at s g) = launch at s (continue-Matches f g)
  continue-Matches f (return g) = return (continue-Matches f g)

pub continue-append :
    (es fs : List End) (k : Process → List End)
    → continue (es ++ fs) k ≡ continue es k ++ continue fs k
unfolding continue
continue-append [] fs k = refl
continue-append (e ∷ es) fs k = rw (continue-append es fs k) (sym (append_assoc (and_each e k) _ _))
