-- ===== src/Dup2/Runs.antt =====
-- What `dup2_impl` does by what the calls of `dup` return.
use sysprog_solutions.Common.{
  ◌>>=◌, ◌>>◌, ◌≡◌, Outcome, ℕ, err, Ensures, get_elem?, ◌≤◌, Cmd, ◌≢◌, replicate, returns,
  Option-cases, ◌⊎◌, none, ◌<◌, ok, true, inl, stops, suc, some, arith, pure, zero, false, bind,
  ◌+◌, inr, ap, mono, refl, ◌∙◌, ◌==◌, Bool-cases, ==_ne, set, sym, get_elem?-set_ne,
}
use sysprog_solutions.Dup2.{
  Stack, stack_pop, stack_push, stack_new, Trap, Fd, fault, CloseResult, close_loop, same_fd,
  stack_size, dup_loop, Result, other_error, descriptor, take_newfd, dup2_impl, closed, bad_number,
}

-- No cell from the size on was written.
abbrev Unwritten : Stack → Type 0
Unwritten st = (i : ℕ) (fd : Fd) → st.size ≤ i → get_elem? st.cells i ≢ some (some fd)

get_elem?-replicate : (n i : ℕ) {fd : Fd} → get_elem? (replicate n none) i ≢ some (some fd)
get_elem?-replicate zero i e = cc
get_elem?-replicate (suc n) zero e = cc
get_elem?-replicate (suc n) (suc i) e = get_elem?-replicate n i e

stack_new-Unwritten : Unwritten stack_new
unfolding stack_new
stack_new-Unwritten i fd h = get_elem?-replicate 64 i

-- A push fails, or takes the next cell.
stack_push-Unwritten :
    (st : Stack) (fd : Fd)
    → Unwritten st
    → (stack_push st fd ≡ err fault)
      ⊎ ((st' : Stack) × (stack_push st fd ≡ ok st') × Unwritten st' × (st'.size ≡ st.size + 1))
unfolding stack_push
stack_push-Unwritten st fd u = elim (Bool-cases (st.size == st.capacity)) [
  | inl full ↦ inl (rw full refl)
  | inr free ↦ inr (
    record st { cells = set st.cells st.size (some fd); size = st.size + 1 },
    rw free refl,
    λ i f h e.
        u i f (omega arith) (sym (get_elem?-set_ne st.cells st.size i (some fd) (omega arith)) ∙ e),
    refl,
  )
]

stack_pop-Unwritten : (st : Stack) → Unwritten st → stack_pop st ≡ err fault
unfolding stack_pop
stack_pop-Unwritten st u = elim (Option-cases (get_elem? st.cells st.size)) [
  | inl out ↦ rw out refl
  | inr (none, e) ↦ rw e refl
  | inr (some fd, e) ↦ absurd (u st.size fd (omega arith) e)
]

stopped :
    {S A : Type 0} {o : Outcome Trap (A × S)}
    → Ensures (λ _ _. ⊥) (λ e. e ≡ fault) o
    → o ≡ err fault
stopped (returns p) = absurd p
stopped (stops q) = ap err q

module _ {S : Type 0} (dup : ℕ → S → Fd × S) (close : Fd → S → CloseResult × S)
    (oldfd newfd : ℕ) where
  -- From a state on, `k` calls of `dup(oldfd)` return other descriptors, and then one `newfd`.
  pub data Climb : ℕ → S → Type 0 where
    here : {s : S} → same_fd (dup oldfd s).0 newfd ≡ true → Climb 0 s
    next :
        {k : ℕ} {s : S}
        → same_fd (dup oldfd s).0 newfd ≡ false
        → Climb k (dup oldfd s).1
        → Climb (suc k) s

  dup_loop-Unwritten :
      (fuel k : ℕ) (st : Stack) (s : S)
      → Climb k s
      → k < fuel
      → Unwritten st
      → Ensures
          (λ st' _. Unwritten st' × (st'.size ≡ st.size + k))
          (λ e. e ≡ fault)
          (dup_loop dup close fuel oldfd newfd st s)
  unfolding dup_loop
  dup_loop-Unwritten zero k st s c h u = absurd (omega arith)
  dup_loop-Unwritten (suc fuel) zero st s (here same) h u = rw same (returns (u, omega arith))
  dup_loop-Unwritten (suc fuel) (suc k) st s (next other c) h u =
      elim (stack_push-Unwritten st (dup oldfd s).0 u) [
        | inl full ↦ rw (other, full) (stops refl)
        | inr (st', run, u', larger) ↦
            rw (other, run)
              (mono (dup_loop-Unwritten fuel k st' (dup oldfd s).1 c (omega arith) u')
                (λ st'' _ p. (p.0, omega (arith, p.1))) (λ e q. q))
      ]

  close_loop-Unwritten :
      (n : ℕ) (st : Stack) (s : S) → Unwritten st → 0 < n → close_loop dup close n st s ≡ err fault
  unfolding close_loop
  close_loop-Unwritten zero st s u h = absurd (omega arith)
  close_loop-Unwritten (suc n) st s u h = rw (stack_pop-Unwritten st u) refl

  -- The two loops behind `close(newfd)`.
  loops : ℕ → Cmd Trap S Result
  loops fuel = do
    st ← dup_loop dup close fuel oldfd newfd stack_new
    close_loop dup close (stack_size st) st
    pure (descriptor newfd)

  take_newfd_ignored :
      (fuel : ℕ) (c : CloseResult) (s : S)
      → c ≢ other_error
      → take_newfd dup close fuel oldfd newfd c s ≡ loops fuel s
  unfolding loops
  take_newfd_ignored fuel closed s h = refl
  take_newfd_ignored fuel bad_number s h = refl
  take_newfd_ignored fuel other_error s h = absurd (h refl)

  loops_direct :
      (fuel : ℕ) (s : S) → Climb 0 s → loops (suc fuel) s ≡ ok (descriptor newfd, (dup oldfd s).1)
  unfolding loops dup_loop close_loop stack_new stack_size
  loops_direct fuel s (here same) = rw same refl

  loops_intermediate :
      (fuel k : ℕ) (s : S)
      → Climb k s
      → 0 < k
      → k < fuel
      → Ensures (λ _ _. ⊥) (λ e. e ≡ fault) (loops fuel s)
  unfolding loops stack_size
  loops_intermediate fuel k s climb more h =
      bind (dup_loop-Unwritten fuel k stack_new s climb h stack_new-Unwritten)
        λ st t p. rw (close_loop-Unwritten st.size st t p.0 (omega (arith, p.1))) (stops refl)

  module _ (s s1 s2 s3 : S) (fd : ℕ) (r c : CloseResult) (distinct : oldfd ≢ newfd)
      (copied : dup oldfd s ≡ (some fd, s1)) (dropped : close (some fd) s1 ≡ (r, s2))
      (freed : close (some newfd) s2 ≡ (c, s3)) (ignored : c ≢ other_error) where
    to_loops : (fuel : ℕ) → dup2_impl dup close fuel (some oldfd) (some newfd) s ≡ loops fuel s3
    unfolding dup2_impl
    to_loops fuel =
        let other : (oldfd == newfd) ≡ false = ==_ne oldfd newfd distinct in
        rw (other, copied, dropped, freed) (take_newfd_ignored fuel c s3 ignored)

    -- Where `oldfd` is another number and can be copied, `close(newfd)` succeeds or gives EBADF,
    -- and `dup(oldfd)` then gives `newfd` at once, `dup2_impl` returns `newfd` in the state behind
    -- that `dup`.
    pub dup2_impl_direct :
        (fuel : ℕ)
        → Climb 0 s3
        → dup2_impl dup close (suc fuel) (some oldfd) (some newfd) s
          ≡ ok (descriptor newfd, (dup oldfd s3).1)
    dup2_impl_direct fuel climb = to_loops (suc fuel) ∙ loops_direct fuel s3 climb

    -- Where `oldfd` is another number and can be copied, `close(newfd)` succeeds or gives EBADF,
    -- and `dup(oldfd)` then gives one other descriptor or more before `newfd`, `dup2_impl` has
    -- undefined behaviour: it reads a cell of its stack that was never written, or overruns the
    -- stack. Fuel is more than the number of other descriptors.
    pub dup2_impl_intermediate :
        (fuel k : ℕ)
        → Climb k s3
        → 0 < k
        → k < fuel
        → dup2_impl dup close fuel (some oldfd) (some newfd) s ≡ err fault
    dup2_impl_intermediate fuel k climb more h =
        to_loops fuel ∙ stopped (loops_intermediate fuel k s3 climb more h)
