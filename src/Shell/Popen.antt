-- ===== src/Shell/Popen.antt =====
-- src/shell/popen.c: `popen` and `pclose`, with the table of the children's process numbers.
pub mod Streams
pub mod Child
mod Tests
use sysprog_solutions.Shell.Lexer.{Text}
use sysprog_solutions.Common.{
  ℕ, zero, suc, [], ◌∷◌, refl, some, none, true, false, Bool, inl, inr, if◌then◌else◌, set, length,
  List, Option, ltb, leb, get_elem?, ◌==◌, replicate, ◌||◌, not,
}
use sysprog_solutions.Shell.Descriptors.{
  Table, ProcessName, close, dup2, lowest, open_lowest, read_end, write_end,
}

-- What `popen` takes from the system: the result of `open_max`, whether there is memory, a pipe and
-- a stream, the process number from `fork`, `none` where it fails, and a name for the pipe.
pub record Calls : Type 0 where
  pub open_max : ℕ
  pub memory : Bool
  pub pipes : Bool
  pub pid : Option ℕ
  pub streams : Bool
  pub name : ProcessName

-- `childpid` is `none` where NULL; a stream is its descriptor.
pub record Parent : Type 0 where
  pub table : Table
  pub maxfd : ℕ
  pub childpid : Option (List ℕ)

pub data Reason : Type 0 where
  invalid_type no_memory no_pipe too_many no_fork no_stream out_of_bounds : Reason

pub data Result : Type 0 where
  stream : ℕ → Result
  refused : Reason → Result

-- The table of the child is that at its `execl`.
pub record Popened : Type 0 where
  pub result : Result
  pub parent : Parent
  pub child : Option Table

abbrev pub reads : Text → Bool
reads [] = false
reads (c ∷ _) = c == b'r'

-- The type is `r` or `w`, and nothing else.
abbrev pub is_type : Text → Bool
is_type [] = false
is_type (c ∷ []) = (c == b'r') || (c == b'w')
is_type (c ∷ d ∷ _) = false

-- The other end is closed, and the child's end becomes a standard descriptor.
abbrev pub child_end : ℕ → ℕ → ℕ → Table → Table
child_end fd std other t =
    let half = close other t in if fd == std then half else close fd (dup2 fd std half)

-- `for (i = 0; i < maxfd; i++) if (childpid[i] > 0) close(i);`
pub close_streams : List ℕ → ℕ → Table → Table
close_streams [] i t = t
close_streams (pid ∷ pids) i t = close_streams pids (suc i) (if ltb 0 pid then close i t else t)

-- The parent's side, with the end that it keeps and the one that it closes.
abbrev pub keep_end : Calls → ℕ → List ℕ → ℕ → ℕ → Parent → Table → Popened
keep_end c pid pids mine other p child =
    let kept = record p { table = close other p.table } in
    if c.streams
    then if ltb mine (length pids)
      then record {
        result = stream mine;
        parent = record kept { childpid = some (set pids mine pid) };
        child = some child;
      }
      else record { result = refused out_of_bounds; parent = kept; child = some child }
    else record { result = refused no_stream; parent = kept; child = some child }

-- From `fork` on. Where it fails, both ends stay open.
abbrev pub fork_stream : Calls → Text → List ℕ → ℕ → ℕ → Option ℕ → Parent → Popened
fork_stream c type pids in_end out_end none p = record {
  result = refused no_fork;
  parent = p;
  child = none;
}
fork_stream c type pids in_end out_end (some pid) p =
    if reads type
    then keep_end c pid pids in_end out_end p
        (close_streams pids 0 (child_end out_end 1 in_end p.table))
    else keep_end c pid pids out_end in_end p
        (close_streams pids 0 (child_end in_end 0 out_end p.table))

-- From `pipe` on.
abbrev pub open_stream : Calls → Text → List ℕ → Parent → Popened
open_stream c type pids p =
    let in_end = lowest p.table in
    let half = open_lowest (read_end c.name) p.table in
    let out_end = lowest half in
    let both = open_lowest (write_end c.name) half in
    if not c.pipes
    then record { result = refused no_pipe; parent = p; child = none }
    else if leb p.maxfd in_end || leb p.maxfd out_end
    then record {
      result = refused too_many;
      parent = record p { table = close out_end (close in_end both) };
      child = none;
    }
    else fork_stream c type pids in_end out_end c.pid (record p { table = both })

abbrev pub allocated : Calls → Text → Option (List ℕ) → Parent → Popened
allocated c type (some pids) p = open_stream c type pids p
allocated c type none p =
    let first = record p { maxfd = c.open_max } in
    let pids = replicate c.open_max 0 in
    if c.memory
    then open_stream c type pids (record first { childpid = some pids })
    else record { result = refused no_memory; parent = first; child = none }

pub popen : Calls → Text → Parent → Popened
popen c type p =
    if is_type type
    then allocated c type p.childpid p
    else record { result = refused invalid_type; parent = p; child = none }

-- The outcome of one `waitpid`: a status, an interrupt, or another error.
pub data Wait : Type 0 where
  exited : ℕ → Wait
  eintr failed : Wait

pub data Status : Type 0 where
  minus_one : Status
  status : ℕ → Status

-- The loop on `waitpid`, with the outcomes of its calls; behind them it has not ended.
pub wait_loop : List Wait → Option Status
wait_loop [] = none
wait_loop (exited n ∷ ws) = some (status n)
wait_loop (eintr ∷ ws) = wait_loop ws
wait_loop (failed ∷ ws) = some minus_one

-- `childpid` has `maxfd` entries, so that the one of `fd` is there.
abbrev pub close_stream :
    (ℕ → List Wait) → Bool → ℕ → List ℕ → Option ℕ → Parent → Option Status × Parent
close_stream waits closes fd pids none p = (some minus_one, p)
close_stream waits closes fd pids (some pid) p =
    let forgotten = record p { childpid = some (set pids fd 0) } in
    let gone = record forgotten { table = close fd p.table } in
    if pid == 0
    then (some minus_one, p)
    else if closes
    then (wait_loop (waits pid), gone)
    else (some minus_one, gone)

abbrev pub pclose_in :
    (ℕ → List Wait) → Bool → ℕ → Option (List ℕ) → Parent → Option Status × Parent
pclose_in waits closes fd none p = (some minus_one, p)
pclose_in waits closes fd (some pids) p =
    if leb p.maxfd fd
    then (some minus_one, p)
    else close_stream waits closes fd pids (get_elem? pids fd) p

-- `closes` says whether `fclose` succeeds; the descriptor is closed in any case. `waits` gives the
-- outcomes of the calls of `waitpid` for a process.
pub pclose : (ℕ → List Wait) → Bool → ℕ → Parent → Option Status × Parent
unfolding wait_loop
pclose waits closes fd p = pclose_in waits closes fd p.childpid p
