-- ===== src/Ufs/Spec/Runs.antt =====
-- A client's sequence of calls against the specification.
use sysprog_solutions.Common.{
  ℕ, [], ◌∷◌, some, none, List, Option, inl, inr, ◌≡◌, ok, pure, Option-cases, length, subst, refl,
  ◌>>=◌, arith, sym, Outcome, and_then,
}
use sysprog_solutions.Ufs.Files.Directory.{nil}
use sysprog_solutions.Ufs.State.{Ufs, Text, OpenFlags, Call, no_err, Slot, Result, Trap}
use sysprog_solutions.Ufs.Spec.{
  spec_read, Spec, spec_open, spec_write, spec_size, spec_delete, spec_close,
}
use sysprog_solutions.Ufs.Spec.Represents.{Represents, Simulates}
use sysprog_solutions.Ufs.Spec.Creating.{ufs_open-Simulates}
use sysprog_solutions.Ufs.Spec.Reading.{ufs_read-Simulates}
use sysprog_solutions.Ufs.Spec.Writing.{ufs_write-Simulates, file_size-Simulates}
use sysprog_solutions.Ufs.Spec.Deleting.{ufs_delete-Simulates}
use sysprog_solutions.Ufs.Spec.Closing.{ufs_close-Simulates}
use sysprog_solutions.Ufs.Calls.{ufs_read, ufs_open, ufs_write, file_size, ufs_delete, ufs_close}

pub data Request : Type 0 where
  open_request : Text → OpenFlags → Request
  write_request : ℕ → List ℕ → ℕ → Request
  read_request : ℕ → List ℕ → ℕ → Request
  size_request : ℕ → Request
  delete_request : Text → Request
  close_request : ℕ → Request

-- What a call returns, and the caller's array behind a read.
pub data Answer : Type 0 where
  returned : Result → Answer
  filled : Result → List ℕ → Answer
  sized : ℕ → Answer

abbrev pub call : Request → Call Answer
call (open_request filename flags) = do r ← ufs_open filename flags; pure (returned r)
call (write_request fdno buf size) = do r ← ufs_write fdno buf size; pure (returned r)
call (read_request fdno array size) = do
  (r, array') ← ufs_read fdno array size
  pure (filled r array')
call (size_request fdno) = do n ← file_size fdno; pure (sized n)
call (delete_request filename) = do r ← ufs_delete filename; pure (returned r)
call (close_request fdno) = do r ← ufs_close fdno; pure (returned r)

pub run : List Request → Call (List Answer)
run [] = pure []
run (q ∷ qs) = do r ← call q; rs ← run qs; pure (r ∷ rs)

abbrev answer : {A : Type 0} → (A → Answer) → Option (A × Spec) → Option (Answer × Spec)
answer f none = none
answer f (some (x, a)) = some (f x, a)

abbrev same_state : Option ℕ → Spec → Option (ℕ × Spec)
same_state none a = none
same_state (some n) a = some (n, a)

abbrev pub spec_call : Request → Spec → Option (Answer × Spec)
spec_call (open_request filename flags) a = answer returned (spec_open filename flags a)
spec_call (write_request fdno buf size) a = answer returned (spec_write fdno buf size a)
spec_call (read_request fdno array size) a =
    answer (λ p. filled p.0 p.1) (spec_read fdno array size a)
spec_call (size_request fdno) a = answer sized (same_state (spec_size fdno a) a)
spec_call (delete_request filename) a = answer returned (spec_delete filename a)
spec_call (close_request fdno) a = answer returned (spec_close fdno a)

abbrev add_answer : Answer → Option (List Answer × Spec) → Option (List Answer × Spec)
add_answer r none = none
add_answer r (some (rs, a)) = some (r ∷ rs, a)

abbrev and_calls :
    Option (Answer × Spec) → (Spec → Option (List Answer × Spec)) → Option (List Answer × Spec)
and_calls none rest = none
and_calls (some (r, a)) rest = add_answer r (rest a)

-- `none` where one of the calls has no promise.
unfoldable pub spec_run : List Request → Spec → Option (List Answer × Spec)
spec_run [] a = some ([], a)
spec_run (q ∷ qs) a = and_calls (spec_call q a) (spec_run qs)

answer-Simulates :
    {A : Type 0} (f : A → Answer) (o : Outcome Trap (A × Ufs)) (p : Option (A × Spec))
    → Simulates o p
    → Simulates (and_then o (λ x. pure (f x))) (answer f p)
answer-Simulates f o none h = tt
answer-Simulates f o (some (x, a)) (s, ran, r) = (s, rw ran refl, r)

same_state-Simulates :
    {s : Ufs} {a : Spec} (fdno : ℕ)
    → Represents s a
    → Simulates (file_size fdno s) (same_state (spec_size fdno a) a)
same_state-Simulates {s} {a} fdno r = elim (Option-cases (spec_size fdno a)) [
  | inl unknown ↦ rw unknown tt
  | inr (n, e) ↦ rw e (s, file_size-Simulates fdno n r e, r)
]

call-Simulates :
    {s : Ufs} {a : Spec} (q : Request) → Represents s a → Simulates (call q s) (spec_call q a)
call-Simulates {a} (open_request filename flags) r =
    answer-Simulates returned _ (spec_open filename flags a) (ufs_open-Simulates filename flags r)
call-Simulates {a} (write_request fdno buf size) r =
    answer-Simulates returned _ (spec_write fdno buf size a) (ufs_write-Simulates fdno buf size r)
call-Simulates {a} (read_request fdno array size) r =
    answer-Simulates (λ p. filled p.0 p.1) _ (spec_read fdno array size a)
      (ufs_read-Simulates fdno array size r)
call-Simulates {a} (size_request fdno) r =
    answer-Simulates sized _ (same_state (spec_size fdno a) a) (same_state-Simulates fdno r)
call-Simulates {a} (delete_request filename) r =
    answer-Simulates returned _ (spec_delete filename a) (ufs_delete-Simulates filename r)
call-Simulates {a} (close_request fdno) r =
    answer-Simulates returned _ (spec_close fdno a) (ufs_close-Simulates fdno r)

run-Simulates :
    (qs : List Request) (s : Ufs) (a : Spec) → Represents s a → Simulates (run qs s) (spec_run qs a)
unfolding run spec_run
run-Simulates [] s a r = (s, refl, r)
run-Simulates (q ∷ qs) s a r = elim (Option-cases (spec_call q a)) [
  | inl refused ↦
      subst (λ o. Simulates (run (q ∷ qs) s) (and_calls o (spec_run qs))) (sym refused) tt
  | inr ((x, a1), e) ↦
      let (s1, ran, r1) = subst (Simulates (call q s)) e (call-Simulates q r) in
      subst (λ o. Simulates (run (q ∷ qs) s) (and_calls o (spec_run qs))) (sym e)
        (elim (Option-cases (spec_run qs a1)) [
          | inl refused ↦ rw refused tt
          | inr ((xs, a2), e') ↦
              let (s2, rest, r2) = subst (Simulates (run qs s1)) e' (run-Simulates qs s1 a1 r1) in
              rw e' (s2, rw (ran, rest) refl, r2)
        ])
]

-- The static variables at the start, with an array of descriptors.
abbrev pub initial : List Slot → Ufs
initial slots = record {
  ufs_err_code = no_err;
  stderr = [];
  file_list = none;
  files = [];
  filedescs = [];
  file_descriptors = slots;
  file_descriptor_count = 0;
}

-- No file, no handle.
abbrev pub empty : ℕ → Spec
empty room = record {
  directory = some [];
  contents = [];
  handles = [];
  room = room;
  error = no_err;
  messages = [];
}

initial-Represents : (slots : List Slot) → Represents (initial slots) (empty (length slots))
initial-Represents slots = record {
  files = refl;
  file = λ k c e. cc;
  directory = nil;
  count = refl;
  room = refl;
  handle = λ i h e. cc;
  inside = λ i h e. cc;
  apart = λ i j d li. absurd (omega arith);
  error = refl;
  messages = refl;
}

-- Any sequence of calls that the specification allows, from the empty state with an array of
-- descriptors of any length, runs in userfs.c to its end: every call returns what the specification
-- says, errors and sizes included, and the final state stands for the specification's, the contents
-- of each file, the references, the list of files, the descriptors, `ufs_errno` and the messages
-- alike.
pub run-spec_run :
    (slots : List Slot) (qs : List Request) (rs : List Answer) (a : Spec)
    → spec_run qs (empty (length slots)) ≡ some (rs, a)
    → (s : Ufs) × (run qs (initial slots) ≡ ok (rs, s)) × Represents s a
run-spec_run slots qs rs a allowed =
    subst (Simulates (run qs (initial slots))) allowed
      (run-Simulates qs _ _ (initial-Represents slots))
