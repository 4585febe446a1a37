-- ===== src/Shell/Run/Lines.antt =====
-- Command lines from the text to the programs: `parse_command` and then `run_cmd`.
use sysprog_solutions.Common.{
  [], ◌∷◌, suc, refl, true, inl, inr, List, ◌≡◌, length, ◌<◌, Ensures, ap, mono, arith, ◌⊎◌, ◌∙◌,
}
use sysprog_solutions.Shell.Syntax.{
  from, to, Direction, Command, exec, redirect, Stage, Redirection, mode_of, words, meaning,
  IsStage, all_redirections, redirected, fd_of, AllStages, render,
}
use sysprog_solutions.Shell.Run.Wiring.{
  wiring, FoundFirst, Works, returns_of, Single, Wired, Plenty, Std, Matches,
}
use sysprog_solutions.Shell.Run.{World, ProcessName, Process, child_name, next_name, run_cmd}
use sysprog_solutions.Shell.Descriptors.{ProcessName, File, Table, write_end, read_end, opened}
use sysprog_solutions.Shell.Command.{Denotes}
use sysprog_solutions.Shell.Parser.{parse_command}
use sysprog_solutions.Shell.Parser.Accepts.{parse_command-meaning}
use sysprog_solutions.Shell.Run.Pipelines.{run_cmd-Matches}
use sysprog_solutions.Shell.Heap.{rdonly, wronly_creat_trunc}

-- The first redirection of either direction counts.
unfoldable pub input_of : List Redirection → File → File
input_of [] i = i
input_of (r ∷ rs) i = elim r.direction [ from ↦ opened r.file rdonly | to ↦ input_of rs i ]

unfoldable pub output_of : List Redirection → File → File
output_of [] o = o
output_of (r ∷ rs) o = elim r.direction [
  | from ↦ output_of rs o
  | to ↦ opened r.file wronly_creat_trunc
]

abbrev pub stage_wiring : Stage → File → File → Wired
stage_wiring s i o = record {
  argv = words s.arguments;
  input = input_of (all_redirections s.arguments) i;
  output = output_of (all_redirections s.arguments) o;
}

-- A pipe joins each stage to the next one, and the stages run in processes that fork from each
-- other.
unfoldable pub pipeline : Stage → List Stage → ProcessName → File → File → List Wired
pipeline s [] n i o = stage_wiring s i o ∷ []
pipeline s (t ∷ ts) n i o =
    stage_wiring s i (write_end n) ∷ pipeline t ts (child_name (next_name n)) (read_end n) o

abbrev pub AllOpen : World → List Redirection → Type 0
AllOpen w [] = Unit
AllOpen w (r ∷ rs) = (w.opens r.file (mode_of r.direction) ≡ true) × AllOpen w rs

-- The program of each stage is found, and its files can be opened.
abbrev pub AllWork : World → List Stage → Type 0
AllWork w [] = Unit
AllWork w (s ∷ ss) =
    FoundFirst w (words s.arguments) × AllOpen w (all_redirections s.arguments) × AllWork w ss

redirected-Works :
    (w : World) (c : Command) (rs : List Redirection)
    → Single c
    → Works w c
    → AllOpen w rs
    → Single (redirected c rs) × Works w (redirected c rs)
redirected-Works w c [] s h o = (s, h)
redirected-Works w c (r ∷ rs) s h (o, os) =
    let std : fd_of r.direction < 2 = grind arith in
    redirected-Works w (redirect c r.file (mode_of r.direction) (fd_of r.direction)) rs s
      (o, std, h) os

meaning-Works :
    (w : World) (s : Stage) (ts : List Stage) → AllWork w (s ∷ ts) → Works w (meaning s ts)
meaning-Works w s [] (found, opens, rest) =
    (redirected-Works w _ (all_redirections s.arguments) tt found opens).1
meaning-Works w s (t ∷ ts) (found, opens, rest) =
    let (single, works) =
      redirected-Works w (exec (words s.arguments)) (all_redirections s.arguments) tt found opens in
    (single, works, meaning-Works w t ts rest)

Direction-cases : (d : Direction) → (d ≡ from) ⊎ (d ≡ to)
Direction-cases from = inl refl
Direction-cases to = inr refl

wiring-redirected :
    (c : Command) (rs : List Redirection) (n : ProcessName) (i o : File)
    → (wiring (redirected c rs) n i o ≡ wiring c n (input_of rs i) (output_of rs o))
      × (returns_of (redirected c rs) ≡ returns_of c)
unfolding wiring returns_of input_of output_of
wiring-redirected c [] n i o = (refl, refl)
wiring-redirected c (r ∷ rs) n i o =
    let (e, k) =
      wiring-redirected (redirect c r.file (mode_of r.direction) (fd_of r.direction)) rs n i o in
    elim (Direction-cases r.direction) [ inl d ↦ (e ∙ rw d refl, k) | inr d ↦ (e ∙ rw d refl, k) ]

wiring-meaning :
    (s : Stage) (ts : List Stage) (n : ProcessName) (i o : File)
    → (wiring (meaning s ts) n i o ≡ pipeline s ts n i o) × (returns_of (meaning s ts) ≡ length ts)
unfolding wiring pipeline returns_of
wiring-meaning s [] n i o =
    wiring-redirected (exec (words s.arguments)) (all_redirections s.arguments) n i o
wiring-meaning s (t ∷ ts) n i o =
    let (e, k) =
      wiring-redirected (exec (words s.arguments)) (all_redirections s.arguments) (child_name n) i
        (write_end n) in
    let (es, ks) = wiring-meaning t ts (child_name (next_name n)) (read_end n) o in
    (rw (e, es) refl, ap suc ks)

-- A line that spells a pipeline is parsed to a command that `run_cmd` runs as the pipeline: in
-- order, the program of each stage is launched, at its name or else in /bin or /usr/bin, with its words, reads the first file behind a `<`,
-- else the pipe from the stage before or the shell's input, and writes the first file behind a `>`,
-- else the pipe to the next stage or the shell's output, and has no other descriptor that the shell
-- does not have. So it is where the programs are found, the files opened, and no pipe or fork
-- fails. From `run_cmd` one process fewer returns than there are stages.
pub parse_command-run_cmd :
    (w : World) (s : Stage) (ts : List Stage) (p : Process) {base : Table} {i o : File}
    → IsStage s
    → AllStages ts
    → Plenty w
    → AllWork w (s ∷ ts)
    → Std base i o p.table
    → Ensures
        (λ q st.
          (c : Command) × Denotes st.heap q c
          × Matches w base (run_cmd w c p) (pipeline s ts p.name i o) (length ts))
        (λ _. ⊥)
        (parse_command (render s ts))
parse_command-run_cmd w s ts p {i} {o} is all plenty work std =
    let (e, k) = wiring-meaning s ts p.name i o in
    mono (parse_command-meaning s ts is all)
      (λ q st d. (
        meaning s ts,
        d,
        rw (← e, ← k) (run_cmd-Matches w (meaning s ts) p plenty (meaning-Works w s ts work) std),
      ))
      (λ x h. h)
