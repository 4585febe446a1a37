-- ===== src/Dup2.antt =====
-- `dup2_impl` and its stack in src/shell/mydup2.c. The system calls `dup` and `close` are
-- parameters over the state `S` of the process.
pub mod Runs
pub mod Tests
use sysprog_solutions.Common.{
  ◌>>=◌, ◌>>◌, Option, ℕ, replicate, Outcome, List, if◌then◌else◌, Bool, Cmd, none, get_elem?, ok,
  pure, raise, ◌==◌, false, some, suc, err, ◌-◌, set, zero, ◌+◌,
}

-- A descriptor number; a negative `int` is `none`.
abbrev pub Fd : Type 0
Fd = Option ℕ

-- Undefined behaviour, or too little fuel.
pub data Trap : Type 0 where
  fault out_of_fuel : Trap

-- A cell of `data` that was never written is `none`.
pub record Stack : Type 0 where
  pub cells : List (Option Fd)
  pub size : ℕ
  pub capacity : ℕ

pub stack_new : Stack
stack_new = record { cells = replicate 64 none; size = 0; capacity = 64 }

pub stack_size : Stack → ℕ
stack_size s = s.size

-- A full stack reallocates the block that it lies in itself, and is then used through the pointer
-- to the old block.
pub stack_push : Stack → Fd → Outcome Trap Stack
stack_push s item =
    if s.size == s.capacity
    then err fault
    else ok (record s { cells = set s.cells s.size (some item); size = s.size + 1 })

abbrev pub popped_from : Stack → Option (Option Fd) → Outcome Trap (Fd × Stack)
popped_from s (some (some fd)) = ok (fd, record s { size = s.size - 1 })
popped_from s _ = err fault

-- `s->data[s->size--]`: a cell out of bounds, or never written, is a fault.
pub stack_pop : Stack → Outcome Trap (Fd × Stack)
stack_pop s = popped_from s (get_elem? s.cells s.size)

-- What `close` does: 0, or -1 with `errno` EBADF or another.
pub data CloseResult : Type 0 where
  closed bad_number other_error : CloseResult

-- What `dup2_impl` returns: a descriptor, or -1 with `errno` EBADF or the one that `close` set.
pub data Result : Type 0 where
  descriptor : ℕ → Result
  ebadf close_errno : Result

abbrev pub same_fd : Fd → ℕ → Bool
same_fd none n = false
same_fd (some m) n = m == n

abbrev pub lift : {S A : Type 0} → Outcome Trap A → Cmd Trap S A
lift (ok a) = pure a
lift (err e) = raise e

module _ {S : Type 0} (dup : ℕ → S → Fd × S) (close : Fd → S → CloseResult × S) where
  abbrev pub do_dup : ℕ → Cmd Trap S Fd
  do_dup oldfd s = ok (dup oldfd s)

  abbrev pub do_close : Fd → Cmd Trap S CloseResult
  do_close fd s = ok (close fd s)

  -- `while ((fd = dup(oldfd)) != newfd) stack_push(s, fd);` for as many rounds as there is fuel.
  pub dup_loop : ℕ → ℕ → ℕ → Stack → Cmd Trap S Stack
  dup_loop zero oldfd newfd st = raise out_of_fuel
  dup_loop (suc fuel) oldfd newfd st = do
    fd ← do_dup oldfd
    if same_fd fd newfd
        then pure st
        else (do st' ← lift (stack_push st fd); dup_loop fuel oldfd newfd st')

  -- The second loop: a round takes one off the size, so that the size counts the rounds.
  pub close_loop : ℕ → Stack → Cmd Trap S (Unit {0})
  close_loop zero st = pure tt
  close_loop (suc n) st = do (fd, st') ← lift (stack_pop st); r ← do_close fd; close_loop n st'

  -- Behind `close(newfd)`.
  abbrev pub take_newfd : ℕ → ℕ → ℕ → CloseResult → Cmd Trap S Result
  take_newfd fuel oldfd newfd other_error = pure close_errno
  take_newfd fuel oldfd newfd _ = do
    st ← dup_loop fuel oldfd newfd stack_new
    close_loop (stack_size st) st
    pure (descriptor newfd)

  abbrev pub with_copy : ℕ → ℕ → ℕ → Fd → Cmd Trap S Result
  with_copy fuel oldfd newfd none = pure ebadf
  with_copy fuel oldfd newfd (some fd) = do
    r ← do_close (some fd)
    c ← do_close (some newfd)
    take_newfd fuel oldfd newfd c

  pub dup2_impl : ℕ → Fd → Fd → Cmd Trap S Result
  dup2_impl fuel (some oldfd) (some newfd) =
      if oldfd == newfd
      then pure (descriptor newfd)
      else do fd ← do_dup oldfd; with_copy fuel oldfd newfd fd
  dup2_impl fuel _ _ = pure ebadf
