-- ===== src/Shell/Run/Rounds/Counts.antt =====
-- How many programs and processes the main loop of the shell makes.
use sysprog_solutions.Common.{
  ℕ, suc, [], ◌∷◌, List, ◌≡◌, ◌+◌, ◌*◌, total, arith, refl, ◌∙◌, ap, length,
}
use sysprog_solutions.Shell.Syntax.{Command, exec, pipe, redirect}
use sysprog_solutions.Shell.Run.{
  World, Process, End, launched, exited, faulted, returned, fork, run_cmd, run_pipe, Text,
}
use sysprog_solutions.Shell.Run.Pipelines.{run_exec_launched, returns-Single}
use sysprog_solutions.Shell.Run.Wiring.{Works, Plenty, returns_of}
use sysprog_solutions.Shell.Descriptors.{Table}
use sysprog_solutions.Shell.Run.Rounds.{
  Round, change_directory, line, main_loop, programs_of, processes_of, launches_of, AllWork,
}
use sysprog_solutions.Shell.Run.Rounds.Forks.{
  back, total-continue, back-continue, total-fork, back-piped, total-piped, run_pipe-piped,
}

back-run_cmd :
    (w : World) (c : Command) (p : Process)
    → Plenty w
    → Works w c
    → total back (run_cmd w c p) ≡ returns_of c
unfolding run_cmd run_pipe returns_of total
back-run_cmd w (exec argv) p plenty h = rw ((run_exec_launched w argv p h).1) refl
back-run_cmd w (redirect c file mode fd) p plenty (opens, std, h) = back-run_cmd w c _ plenty h
back-run_cmd w (pipe left right) p plenty (single, h, g) =
    let (l, r, f, both, e) = run_pipe-piped w plenty (run_cmd w left) (run_cmd w right) p in
    ap (total back) e
    ∙ back-piped w plenty (λ c. run_cmd w left (l c)) (λ c. run_cmd w right (r c)) f both
        (returns_of right) (λ q. back-run_cmd w left (l q) plenty h ∙ returns-Single left single)
        (λ q. back-run_cmd w right (r q) plenty g)

sum_of_round :
    (a b n k l m : ℕ) {x y : ℕ}
    → x ≡ a * n + 0
    → y ≡ k + 1
    → x + y * (a * l + b * m) ≡ a * (n + suc k * l) + b * (suc k * m)
sum_of_round a b n k l m e f = rw (e, f) (omega arith)

-- A weight of ends: `a` at a program that is launched, 0 at a return, and `b` at the exit of main.
record Weight (v : End → ℕ) (a b : ℕ) : Type 0 where
  launch : (path : Text) (argv : List Text) (t : Table) → v (launched path argv t) ≡ a
  unreturned : (p : Process) → v (returned p) ≡ 0
  exit : v (exited 0) ≡ b

module _ (v : End → ℕ) (a b : ℕ) (wt : Weight v a b) (w : World) (plenty : Plenty w) where
  total-run_cmd :
      (c : Command) (p : Process) → Works w c → total v (run_cmd w c p) ≡ a * programs_of c
  unfolding run_cmd total
  total-run_cmd (exec argv) p h = rw ((run_exec_launched w argv p h).1) (omega (arith, wt.launch))
  total-run_cmd (redirect c file mode fd) p (opens, std, h) = total-run_cmd c _ h
  total-run_cmd (pipe left right) p (single, h, g) =
      let (l, r, f, both, e) = run_pipe-piped w plenty (run_cmd w left) (run_cmd w right) p in
      let sum =
        total-piped w plenty (λ c. run_cmd w left (l c)) (λ c. run_cmd w right (r c)) f both v
          (a * programs_of left) (a * programs_of right) wt.unreturned
          (λ q. back-run_cmd w left (l q) plenty h ∙ returns-Single left single)
          (λ q. total-run_cmd left (l q) h) (λ q. total-run_cmd right (r q) g) in
      ap (total v) e ∙ sum ∙ grind arith

  total-main_loop :
      (rs : List Round) (p : Process)
      → AllWork w rs
      → total v (main_loop w rs p) ≡ a * launches_of rs + b * processes_of rs
  unfolding main_loop total
  total-main_loop [] p h = omega (arith, wt.exit)
  total-main_loop (change_directory ∷ rs) p h = total-main_loop rs p h
  total-main_loop (line c ∷ rs) p (works, h) =
      let own =
        total-fork v (a * programs_of c) 0 w p (run_cmd w c) plenty wt.unreturned
          (λ q. total-run_cmd c q works) in
      let stay =
        total-fork back (returns_of c) 1 w p (run_cmd w c) plenty (λ q. refl)
          (λ q. back-run_cmd w c q plenty works) in
      let both =
        total-continue v wt.unreturned (fork w p (run_cmd w c)) (main_loop w rs)
          (a * launches_of rs + b * processes_of rs) (λ q. total-main_loop rs q h) in
      both
      ∙ sum_of_round a b (programs_of c) (returns_of c) (launches_of rs) (processes_of rs) own stay

abbrev pub launches : End → ℕ
launches (launched path argv t) = 1
launches _ = 0

abbrev pub exits : End → ℕ
exits (exited status) = 1
exits _ = 0

abbrev ends : End → ℕ
ends (returned p) = 0
ends _ = 1

length-ends : (es : List End) → length es ≡ total ends es + total back es
unfolding total
length-ends [] = omega arith
length-ends (launched path argv t ∷ es) = omega (arith, length-ends es)
length-ends (exited status ∷ es) = omega (arith, length-ends es)
length-ends (faulted ∷ es) = omega (arith, length-ends es)
length-ends (returned p ∷ es) = omega (arith, length-ends es)

back-main_loop : (w : World) (rs : List Round) (p : Process) → total back (main_loop w rs p) ≡ 0
unfolding main_loop total
back-main_loop w [] p = refl
back-main_loop w (change_directory ∷ rs) p = back-main_loop w rs p
back-main_loop w (line c ∷ rs) p =
    back-continue (fork w p (run_cmd w c)) (main_loop w rs) 0 (back-main_loop w rs) ∙ omega arith

-- The main loop on lines whose programs are all found, whose files can be opened, and with no pipe
-- or fork that fails. Each line is read by every process in the loop, and behind a pipeline of `n`
-- programs each of these is `n` processes: so often are the programs of the later lines launched,
-- in all `launches_of` of them, and so many processes, `processes_of`, leave the loop and exit.
-- There is no other end: without a pipe each program is launched once, and one process exits.
pub main_loop_ends :
    (w : World) (rs : List Round) (p : Process)
    → Plenty w
    → AllWork w rs
    → (total launches (main_loop w rs p) ≡ launches_of rs)
      × (total exits (main_loop w rs p) ≡ processes_of rs)
      × (length (main_loop w rs p) ≡ launches_of rs + processes_of rs)
main_loop_ends w rs p plenty work =
    let programs : Weight launches 1 0 = record {
      launch = λ path argv t. refl;
      unreturned = λ q. refl;
      exit = refl;
    } in
    let returns : Weight exits 0 1 = record {
      launch = λ path argv t. refl;
      unreturned = λ q. refl;
      exit = refl;
    } in
    let all : Weight ends 1 1 = record {
      launch = λ path argv t. refl;
      unreturned = λ q. refl;
      exit = refl;
    } in
    (
      omega (arith, total-main_loop launches 1 0 programs w plenty rs p work),
      omega (arith, total-main_loop exits 0 1 returns w plenty rs p work),
      omega (
        arith,
        total-main_loop ends 1 1 all w plenty rs p work,
        length-ends (main_loop w rs p),
        back-main_loop w rs p,
      ),
    )
