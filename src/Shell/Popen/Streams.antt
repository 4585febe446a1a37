-- ===== src/Shell/Popen/Streams.antt =====
-- A stream of `popen` from its opening to its end.
use sysprog_solutions.Shell.Lexer.{Text}
use sysprog_solutions.Common.{
  ℕ, zero, suc, [], ◌∷◌, refl, some, true, false, inl, inr, if◌then◌else◌, set, length, List,
  get_elem?, ◌≡◌, ap, ◌<◌, leb, arith, ltb, get_elem?-set_self, Bool-cases, ◌==◌, replicate, ◌++◌,
  ◌∙◌, Option, sym, none,
}
use sysprog_solutions.Shell.Descriptors.{
  Table, lowest, open_lowest, read_end, write_end, close, at, at-close,
}
use sysprog_solutions.Shell.Popen.{
  Calls, Parent, popen, pclose, Wait, is_type, wait_loop, stream, reads, eintr, exited, status,
  Popened,
}
use sysprog_solutions.Shell.Run.Tables.{pipe-Piped}

set-get : (xs : List ℕ) (i x y : ℕ) → get_elem? xs i ≡ some x → set (set xs i y) i x ≡ xs
set-get [] i x y e = refl
set-get (z ∷ xs) zero x y e = let same : z ≡ x = cc in rw same refl
set-get (z ∷ xs) (suc i) x y e = ap (λ zs. z ∷ zs) (set-get xs i x y e)

-- The two ends of the pipe that `popen` makes next.
abbrev pub in_end : Table → ℕ
in_end t = lowest t

abbrev pub out_end : Calls → Table → ℕ
out_end c t = lowest (open_lowest (read_end c.name) t)

abbrev pub both_ends : Calls → Table → Table
both_ends c t = open_lowest (write_end c.name) (open_lowest (read_end c.name) t)

-- The parent where `childpid` is allocated: the first call of `popen` asks `open_max` for the limit,
-- and makes a table of zeros.
abbrev pub allocated_parent : Calls → Option (List ℕ) → Parent → Parent
allocated_parent c none p = record p {
  maxfd = c.open_max;
  childpid = some (replicate c.open_max 0);
}
allocated_parent c (some pids) p = p

-- The parent behind the first part of `popen`, in the first call or in a later one.
abbrev pub prepared : Calls → Parent → Parent
prepared c p = allocated_parent c p.childpid p

popen_allocated :
    (c : Calls) (type : Text) (p : Parent) (pids : Option (List ℕ))
    → is_type type ≡ true
    → c.memory ≡ true
    → p.childpid ≡ pids
    → popen c type p ≡ popen c type (allocated_parent c pids p)
unfolding popen
popen_allocated c type p (some pids) is memory e = refl
popen_allocated c type p none is memory e = rw (is, e, memory) refl

pub popen-prepared :
    (c : Calls) (type : Text) (p : Parent)
    → is_type type ≡ true
    → c.memory ≡ true
    → popen c type p ≡ popen c type (prepared c p)
popen-prepared c type p is memory = popen_allocated c type p p.childpid is memory refl

table-allocated_parent :
    (c : Calls) (p : Parent) (pids : Option (List ℕ)) → (allocated_parent c pids p).table ≡ p.table
table-allocated_parent c p none = refl
table-allocated_parent c p (some pids) = refl

pub table-prepared : (c : Calls) (p : Parent) → (prepared c p).table ≡ p.table
table-prepared c p = table-allocated_parent c p p.childpid

-- Nothing fails, with `childpid` allocated: it has `maxfd` entries, there are memory, a pipe, a
-- process and a stream, and the descriptors of the pipe are below the limit and have no stream.
pub record Succeeds (c : Calls) (p : Parent) (pids : List ℕ) (pid : ℕ) : Type 0 where
  pub table : p.childpid ≡ some pids
  pub size : length pids ≡ p.maxfd
  pub memory : c.memory ≡ true
  pub pipes : c.pipes ≡ true
  pub forks : c.pid ≡ some (suc pid)
  pub streams : c.streams ≡ true
  pub in_room : in_end p.table < p.maxfd
  pub out_room : out_end c p.table < p.maxfd
  pub in_unused : get_elem? pids (in_end p.table) ≡ some 0
  pub out_unused : get_elem? pids (out_end c p.table) ≡ some 0

module _ (c : Calls) (p : Parent) (pids : List ℕ) (pid : ℕ) (good : Succeeds c p pids pid) where
  -- The stream of the end `mine`, with the parent behind `popen`.
  abbrev opened_at : ℕ → ℕ → Parent
  opened_at mine other = record p {
    table = close other (both_ends c p.table);
    childpid = some (set pids mine (suc pid));
  }

  popen_from :
      (type : Text)
      → is_type type ≡ true
      → ((popen c type p).result
          ≡ stream (if reads type then in_end p.table else out_end c p.table))
        × ((popen c type p).parent ≡ (
            if reads type
            then opened_at (in_end p.table) (out_end c p.table)
            else opened_at (out_end c p.table) (in_end p.table)))
  unfolding popen
  popen_from type is =
      let a : leb p.maxfd (in_end p.table) ≡ false = ground (arith, good.in_room) in
      let b : leb p.maxfd (out_end c p.table) ≡ false = ground (arith, good.out_room) in
      let a' : ltb (in_end p.table) (length pids) ≡ true =
        ground (arith, good.in_room, good.size) in
      let b' : ltb (out_end c p.table) (length pids) ≡ true =
        ground (arith, good.out_room, good.size) in
      elim (Bool-cases (reads type)) [
        | inl r ↦
            rw (is, good.table, good.pipes, a, b, good.forks, r, good.streams, a') (refl, refl)
        | inr w ↦
            rw (is, good.table, good.pipes, a, b, good.forks, w, good.streams, b') (refl, refl)
      ]

  pclose_at :
      (waits : ℕ → List Wait) (mine other : ℕ)
      → mine < p.maxfd
      → get_elem? pids mine ≡ some 0
      → pclose waits true mine (opened_at mine other) ≡ (
        wait_loop (waits (suc pid)),
        record p { table = close mine (close other (both_ends c p.table)); childpid = some pids },
      )
  unfolding pclose
  pclose_at waits mine other room unused =
      let a : leb p.maxfd mine ≡ false = ground arith in
      let running : (suc pid == 0) ≡ false = ground arith in
      rw
        (
          a,
          get_elem?-set_self pids mine (suc pid) (omega (arith, good.size)),
          set-get pids mine 0 (suc pid) unused,
          running,
        )
        refl

  -- Closing both ends of a new pipe leaves the descriptors as they were.
  closed_ends :
      (i : ℕ)
      → (at (close (in_end p.table) (close (out_end c p.table) (both_ends c p.table))) i
          ≡ at p.table i)
        × (at (close (out_end c p.table) (close (in_end p.table) (both_ends c p.table))) i
            ≡ at p.table i)
  closed_ends i =
      let t = both_ends c p.table in
      let a = in_end p.table in
      let b = out_end c p.table in
      let piped = pipe-Piped p.table (read_end c.name) (write_end c.name) in
      (
        at-close a i (close b t)
            ∙ rw (at-close b i t) (ground (arith, piped.others i, piped.in_free, piped.out_free)),
        at-close b i (close a t)
            ∙ rw (at-close a i t) (ground (arith, piped.others i, piped.in_free, piped.out_free)),
      )

  wait_loop-eintr : (k n : ℕ) → wait_loop (replicate k eintr ++ (exited n ∷ [])) ≡ some (status n)
  unfolding wait_loop
  wait_loop-eintr zero n = refl
  wait_loop-eintr (suc k) n = wait_loop-eintr k n

  pclose-popen_later :
      (type : Text) (waits : ℕ → List Wait) (k n : ℕ)
      → is_type type ≡ true
      → waits (suc pid) ≡ replicate k eintr ++ (exited n ∷ [])
      → (fd : ℕ) × (t : Table) × ((popen c type p).result ≡ stream fd)
        × (pclose waits true fd (popen c type p).parent
            ≡ (some (status n), record p { table = t; childpid = some pids }))
        × ((i : ℕ) → at t i ≡ at p.table i)
  pclose-popen_later type waits k n is ends =
      let a = in_end p.table in
      let b = out_end c p.table in
      let (result, parent) = popen_from type is in
      let last : wait_loop (waits (suc pid)) ≡ some (status n) = rw ends (wait_loop-eintr k n) in
      elim (Bool-cases (reads type)) [
        | inl r ↦ (
          a,
          close a (close b (both_ends c p.table)),
          result ∙ rw r refl,
          rw (parent, r) (pclose_at waits a b good.in_room good.in_unused ∙ rw last refl),
          λ i. (closed_ends i).0,
        )
        | inr w ↦ (
          b,
          close b (close a (both_ends c p.table)),
          result ∙ rw w refl,
          rw (parent, w) (pclose_at waits b a good.out_room good.out_unused ∙ rw last refl),
          λ i. (closed_ends i).1,
        )
      ]

-- In the first call of `popen` and in each later one, with `maxfd` entries in `childpid`, of type
-- `r` or `w`, where no system call fails and the descriptors of the new pipe are below the limit
-- and have no stream yet: `popen` gives a stream, and `pclose` of it returns the status of the
-- child's process, however often its wait is interrupted, and leaves the descriptors as they were
-- before `popen`, and `childpid` as it was, or, where that was NULL, as the first call made it:
-- zeros up to the limit of `open_max`.
pub pclose-popen :
    (c : Calls) (p : Parent) (pids : List ℕ) (pid : ℕ) (type : Text) (waits : ℕ → List Wait)
    (k n : ℕ)
    → Succeeds c (prepared c p) pids pid
    → is_type type ≡ true
    → waits (suc pid) ≡ replicate k eintr ++ (exited n ∷ [])
    → (fd : ℕ) × (t : Table) × ((popen c type p).result ≡ stream fd)
      × (pclose waits true fd (popen c type p).parent
          ≡ (some (status n), record (prepared c p) { table = t }))
      × ((i : ℕ) → at t i ≡ at p.table i)
pclose-popen c p pids pid type waits k n good is ends =
    let (fd, t, opened, closed, same) =
      pclose-popen_later c (prepared c p) pids pid good type waits k n is ends in
    let first = popen-prepared c type p is good.memory in
    let restored : some pids ≡ (prepared c p).childpid = sym good.table in
    (
      fd,
      t,
      ap Popened.result first ∙ opened,
      rw first (closed ∙ rw restored refl),
      λ i. same i ∙ ap (λ u. at u i) (table-prepared c p),
    )
