-- ===== src/Shell/Run/Rounds/Forks.antt =====
-- What forks and pipes add to a weight of the ends of processes.
use sysprog_solutions.Common.{
  ℕ, suc, [], ◌∷◌, List, ◌≡◌, ◌+◌, ◌*◌, total, total-append, arith, refl, ◌∙◌, ap,
}
use sysprog_solutions.Shell.Run.{
  World, Process, End, launched, exited, faulted, returned, continue, fork, run_pipe, child_name,
  next_name, lowest, on_table, move_end,
}
use sysprog_solutions.Shell.Run.Wiring.{Plenty}
use sysprog_solutions.Shell.Descriptors.{lowest, open_lowest, read_end, close, write_end}

abbrev pub back : End → ℕ
back (returned p) = 1
back _ = 0

pub back-continue :
    (es : List End) (k : Process → List End) (c : ℕ)
    → ((p : Process) → total back (k p) ≡ c)
    → total back (continue es k) ≡ total back es * c
unfolding continue total
back-continue [] k c h = omega arith
back-continue (launched path argv t ∷ es) k c h = omega (arith, back-continue es k c h)
back-continue (exited status ∷ es) k c h = omega (arith, back-continue es k c h)
back-continue (faulted ∷ es) k c h = omega (arith, back-continue es k c h)
back-continue (returned p ∷ es) k c h =
    grind (arith, back-continue es k c h, total-append back (k p) (continue es k), h p)

-- A weight of an end that is no return.
module _ (v : End → ℕ) (unreturned : (p : Process) → v (returned p) ≡ 0) where
  pub total-continue :
      (es : List End) (k : Process → List End) (c : ℕ)
      → ((p : Process) → total v (k p) ≡ c)
      → total v (continue es k) ≡ total v es + total back es * c
  unfolding continue total
  total-continue [] k c h = omega arith
  total-continue (launched path argv t ∷ es) k c h = omega (arith, total-continue es k c h)
  total-continue (exited status ∷ es) k c h = omega (arith, total-continue es k c h)
  total-continue (faulted ∷ es) k c h = omega (arith, total-continue es k c h)
  total-continue (returned p ∷ es) k c h =
      grind
        (arith, total-continue es k c h, total-append v (k p) (continue es k), h p, unreturned p)

-- Behind a fork that succeeds, the parent goes on as well.
pub total-fork :
    (v : End → ℕ) (c r : ℕ) (w : World) (p : Process) (child : Process → List End)
    → Plenty w
    → ((q : Process) → v (returned q) ≡ r)
    → ((q : Process) → total v (child q) ≡ c)
    → total v (fork w p child) ≡ c + r
unfolding total
total-fork v c r w p child plenty weight h = rw (plenty.forks p) (
    omega (
      arith,
      total-append v (child (record p { name = child_name p.name }))
          (returned (record p { name = next_name p.name }) ∷ []),
      h (record p { name = child_name p.name }),
      weight (record p { name = next_name p.name }),
    ))

module _ (w : World) (plenty : Plenty w) (left right : Process → List End) (f : Process → Process)
    (p : Process) where
  -- The two forks of a pipe, and what all processes that return do behind them.
  abbrev forked : List End
  forked = continue (fork w p left) (λ q. fork w q right)

  abbrev pub piped : List End
  piped = continue forked (λ q. returned (f q) ∷ [])

  back-forked :
      (k : ℕ)
      → ((q : Process) → total back (left q) ≡ 0)
      → ((q : Process) → total back (right q) ≡ k)
      → total back forked ≡ suc k
  back-forked k l r =
      let first = total-fork back 0 1 w p left plenty (λ q. refl) l in
      let second = λ (q : Process). total-fork back k 1 w q right plenty (λ x. refl) r in
      back-continue (fork w p left) (λ q. fork w q right) (k + 1) second
      ∙ ap (λ n. n * (k + 1)) first
      ∙ omega arith

  pub back-piped :
      (k : ℕ)
      → ((q : Process) → total back (left q) ≡ 0)
      → ((q : Process) → total back (right q) ≡ k)
      → total back piped ≡ suc k
  unfolding total
  back-piped k l r =
      back-continue forked (λ q. returned (f q) ∷ []) 1 (λ q. refl)
      ∙ ap (λ n. n * 1) (back-forked k l r)
      ∙ omega arith

  pub total-piped :
      (v : End → ℕ) (n m : ℕ)
      → ((q : Process) → v (returned q) ≡ 0)
      → ((q : Process) → total back (left q) ≡ 0)
      → ((q : Process) → total v (left q) ≡ n)
      → ((q : Process) → total v (right q) ≡ m)
      → total v piped ≡ n + m
  unfolding total
  total-piped v n m unreturned l ln rm =
      let first = total-fork back 0 1 w p left plenty (λ q. refl) l in
      let first_v = total-fork v n 0 w p left plenty unreturned ln in
      let second_v = λ (q : Process). total-fork v m 0 w q right plenty unreturned rm in
      let inner =
        total-continue v unreturned (fork w p left) (λ q. fork w q right) (m + 0) second_v in
      let none_after : (q : Process) → total v (returned (f q) ∷ []) ≡ 0 =
        λ q. omega (arith, unreturned (f q)) in
      let outer = total-continue v unreturned forked (λ q. returned (f q) ∷ []) 0 none_after in
      grind (arith, first, first_v, inner, outer)

-- `run_pipe` where the pipe is there, whatever the tables.
pub run_pipe-piped :
    (w : World) (plenty : Plenty w) (left right : Process → List End) (p : Process)
    → (l r f : Process → Process) × (both : Process) × (run_pipe w left right p
        ≡ piped w plenty (λ c. left (l c)) (λ c. right (r c)) f both)
unfolding run_pipe
run_pipe-piped w plenty left right p =
    let in_end = lowest p.table in
    let half = open_lowest (read_end p.name) p.table in
    let out_end = lowest half in
    (
      on_table (move_end out_end 1 in_end),
      on_table (move_end in_end 0 out_end),
      on_table (λ t. close out_end (close in_end t)),
      record p { table = open_lowest (write_end p.name) half },
      rw (plenty.pipes p) refl,
    )
