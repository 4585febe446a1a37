-- ===== src/Shell/Popen/Tests.antt =====
-- A stream opened with the type `r`, and the theorems on it.
use sysprog_solutions.Common.{ℕ, [], ◌∷◌, refl, some, none, true, List, ◌≡◌, arith}
use sysprog_solutions.Shell.Popen.{
  popen, Parent, Calls, Text, stream, pclose, eintr, exited, status,
}
use sysprog_solutions.Shell.Descriptors.{lowest, ProcessName, Table, open_lowest, inherited, at}
use sysprog_solutions.Shell.Popen.Streams.{Succeeds, pclose-popen, prepared}

abbrev first_pipe : ProcessName
first_pipe = record { pid = []; forks = 0 }

abbrev calls : Calls
calls = record {
  open_max = 8;
  memory = true;
  pipes = true;
  pid = some 7;
  streams = true;
  name = first_pipe;
}

-- Descriptor 3 is a stream of the process 5.
abbrev parent : Parent
parent = record {
  table = some (inherited 0) ∷ some (inherited 1) ∷ some (inherited 2) ∷ some (inherited 3) ∷ [];
  maxfd = 8;
  childpid = some (0 ∷ 0 ∷ 0 ∷ 5 ∷ 0 ∷ 0 ∷ 0 ∷ 0 ∷ []);
}

abbrev pids : List ℕ
pids = 0 ∷ 0 ∷ 0 ∷ 5 ∷ 0 ∷ 0 ∷ 0 ∷ 0 ∷ []

abbrev reading : Text
reading = b'r' ∷ []

popen_run : (popen calls reading parent).result ≡ stream 4
unfolding popen lowest open_lowest
popen_run = refl

-- The parent before its first call of `popen`.
abbrev first : Parent
first = record parent { maxfd = 0; childpid = none }

abbrev zeros : List ℕ
zeros = 0 ∷ 0 ∷ 0 ∷ 0 ∷ 0 ∷ 0 ∷ 0 ∷ 0 ∷ []

first_succeed : Succeeds calls (prepared calls first) zeros 6
unfolding lowest open_lowest
first_succeed = record {
  table = refl;
  size = refl;
  memory = refl;
  pipes = refl;
  forks = refl;
  streams = refl;
  in_room = omega arith;
  out_room = omega arith;
  in_unused = refl;
  out_unused = refl;
}

pclose-popen_example :
    (fd : ℕ) × (t : Table) × ((popen calls reading first).result ≡ stream fd)
    × (pclose (λ _. eintr ∷ exited 3 ∷ []) true fd (popen calls reading first).parent
        ≡ (some (status 3), record first { maxfd = 8; table = t; childpid = some zeros }))
    × ((i : ℕ) → at t i ≡ at first.table i)
pclose-popen_example =
    pclose-popen calls first zeros 6 reading (λ _. eintr ∷ exited 3 ∷ []) 1 3 first_succeed refl
      refl
