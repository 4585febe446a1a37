-- ===== src/Shell/Popen/Child.antt =====
-- The descriptors that the child of `popen` has at its `execl`.
use sysprog_solutions.Common.{ℕ, zero, suc, [], ◌∷◌, false, Bool, List, ltb}

-- Descriptors that `childpid` has a process for.
unfoldable pub is_stream : List ℕ → ℕ → Bool
is_stream [] j = false
is_stream (pid ∷ pids) zero = ltb 0 pid
is_stream (pid ∷ pids) (suc j) = is_stream pids j
