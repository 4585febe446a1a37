-- ===== src/ThreadYt/Pool/Contents.antt =====
-- The array of `thread_pool.c` is a queue.
use sysprog_solutions.Common.{
  ℕ, suc, [], ◌∷◌, refl, some, true, List, get_elem?, length, ◌≡◌, set, ◌++◌, ◌<◌, ap, arith, ◌-◌,
  ltb, length-append, ◌∙◌, append-nil, sym, append_assoc, length-set, ◌+◌, set-append,
}
use sysprog_solutions.ThreadYt.Pool.{Queue, shift, Task, first_task, submit_task}

-- The tasks that wait are the first cells.
pub record IsQueue (q : Queue) (tasks : List Task) : Type 0 where
  pub rest : List Task
  pub cells : q.cells ≡ tasks ++ rest
  pub count : q.count ≡ length tasks
  pub size : length q.cells ≡ 256

module _ {A : Type 0} where
  get_elem?-second :
      (xs : List A) (x y : A) (ys : List A)
      → get_elem? (xs ++ x ∷ y ∷ ys) (suc (length xs)) ≡ some y
  get_elem?-second [] x y ys = refl
  get_elem?-second (a ∷ xs) x y ys = get_elem?-second xs x y ys

-- Each task of `tasks` moves down over the one before it; the last one stays as well.
shift-append :
    (i : ℕ) (before : List Task) (x : Task) (tasks rest : List Task)
    → i ≡ length before
    → (last : Task) × (shift (length tasks) i (before ++ (x ∷ (tasks ++ rest)))
        ≡ some (before ++ (tasks ++ (last ∷ rest))))
unfolding shift
shift-append i before x [] rest e = (x, refl)
shift-append i before x (y ∷ tasks) rest e =
    let (last, moved) =
      shift-append (suc i) (before ++ (y ∷ [])) y tasks rest
        (omega (arith, e, length-append before (y ∷ []))) in
    let next : get_elem? (before ++ (x ∷ y ∷ (tasks ++ rest))) (suc i) ≡ some y =
      rw e (get_elem?-second before x y (tasks ++ rest)) in
    let stored : set (before ++ (x ∷ y ∷ (tasks ++ rest))) i y
        ≡ before ++ (y ∷ y ∷ (tasks ++ rest)) =
      rw e (set-append before x y (y ∷ (tasks ++ rest))) in
    let again = append_assoc before (y ∷ []) (y ∷ (tasks ++ rest)) in
    let result = append_assoc before (y ∷ []) (tasks ++ (last ∷ rest)) in
    (
      last,
      rw (next, stored) (ap (shift (length tasks) (suc i)) (sym again) ∙ moved ∙ ap some result),
    )

store-IsQueue :
    (t : Task) (q : Queue) (tasks rest : List Task)
    → q.cells ≡ tasks ++ rest
    → q.count ≡ length tasks
    → length q.cells ≡ 256
    → length tasks < 256
    → (q' : Queue) × (submit_task t q ≡ some q') × IsQueue q' (tasks ++ (t ∷ []))
unfolding submit_task
store-IsQueue t q tasks [] cells count size short =
    absurd (omega (arith, size, short, ap length (cells ∙ append-nil tasks)))
store-IsQueue t q tasks (x ∷ rest) cells count size short =
    let inside : ltb q.count (length q.cells) ≡ true = ground arith in
    (
      record { cells = set q.cells q.count t; count = q.count + 1 },
      rw inside refl,
      record {
        rest = rest;
        cells =
            rw (cells, count) (set-append tasks x t rest ∙ sym (append_assoc tasks (t ∷ []) rest));
        count = omega (arith, count, length-append tasks (t ∷ []));
        size = length-set q.cells q.count t ∙ size;
      },
    )

pub submit_task-IsQueue :
    (t : Task) (q : Queue) (tasks : List Task)
    → IsQueue q tasks
    → length tasks < 256
    → (q' : Queue) × (submit_task t q ≡ some q') × IsQueue q' (tasks ++ (t ∷ []))
submit_task-IsQueue t q tasks is short =
    store-IsQueue t q tasks is.rest is.cells is.count is.size short

pub first_task-IsQueue :
    (t : Task) (q : Queue) (tasks : List Task)
    → IsQueue q (t ∷ tasks)
    → (q' : Queue) × (first_task q ≡ some (t, q')) × IsQueue q' tasks
unfolding first_task
first_task-IsQueue t q tasks is =
    let (last, moved) = shift-append 0 [] t tasks is.rest refl in
    let one_less : q.count - 1 ≡ length tasks = omega (arith, is.count) in
    (
      _,
      rw (is.cells, one_less, moved) refl,
      record {
        rest = last ∷ is.rest;
        cells = refl;
        count = refl;
        size = omega (
          arith,
          is.size,
          ap length is.cells,
          length-append tasks is.rest,
          length-append tasks (last ∷ is.rest),
        );
      },
    )
