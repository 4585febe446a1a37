-- ===== src/ThreadYt/Pool/Invariant.antt =====
use mathlib.Core.Option.{some-injective}
use sysprog_solutions.Common.{
  ℕ, [], ◌∷◌, refl, some, List, get_elem?, ◌≤◌, ◌≡◌, ◌<◌, length, arith, ◌++◌, set, ◌+◌, sym, ◌∙◌,
  ap, subst, length-append, append_assoc, total, total_mono, total-set, le-total, total-replicate,
}
use sysprog_solutions.ThreadYt.Pool.Threads.{
  submit, submitting, submitted, signalling, starting, checking, waiting, woken, took, executing,
  lock_submit, put, unlock_submit, signal_one, signal_none, lock_worker, cond_wait, wake,
  lock_again, get, unlock_worker, execute_task, program, spurious, Pc, stores, Memory, in_section,
  Counts, makes, signals, awake, sleeps, Move, Heard, Order, AnyMove, started,
}
use sysprog_solutions.ThreadYt.Pool.{Task, Queue, submit_task, first_task}
use sysprog_solutions.ThreadYt.System.{State, bit, bit-le, Reach, Reach-invariant}
use sysprog_solutions.ThreadYt.Pool.Contents.{IsQueue, first_task-IsQueue, submit_task-IsQueue}

-- What each move keeps: the sums over the threads, the signals to come and the order of the tasks.

pub stores-section : (l : Pc) → stores l ≤ in_section l
stores-section submit = omega arith
stores-section submitting = omega arith
stores-section submitted = omega arith
stores-section signalling = omega arith
stores-section starting = omega arith
stores-section checking = omega arith
stores-section waiting = omega arith
stores-section woken = omega arith
stores-section (took t) = omega arith
stores-section (executing t) = omega arith

pub record Inv (workers : ℕ) (todo : List Task) (s : State Memory Pc) : Type 0 where
  pub counts : Counts workers s
  pub heard : Heard s
  pub order : Order todo s.shared.queue s.shared.taken s.shared.todo

changes :
    (ls : List Pc) (i : ℕ) (l l' : Pc)
    → get_elem? ls i ≡ some l
    → (total makes (set ls i l') + makes l ≡ total makes ls + makes l')
      × (total stores (set ls i l') + stores l ≡ total stores ls + stores l')
      × (total signals (set ls i l') + signals l ≡ total signals ls + signals l')
      × (total awake (set ls i l') + awake l ≡ total awake ls + awake l')
      × (total sleeps (set ls i l') + sleeps l ≡ total sleeps ls + sleeps l')
      × (total in_section (set ls i l') + in_section l ≡ total in_section ls + in_section l')
changes ls i l l' e = (
  total-set makes ls i l l' e,
  total-set stores ls i l l' e,
  total-set signals ls i l l' e,
  total-set awake ls i l l' e,
  total-set sleeps ls i l l' e,
  total-set in_section ls i l l' e,
)

-- A store appends the task, and a worker takes the first one.
put-queue :
    (t : Task) (q q' : Queue) (tasks : List Task)
    → IsQueue q tasks
    → length tasks < 256
    → submit_task t q ≡ some q'
    → IsQueue q' (tasks ++ (t ∷ []))
put-queue t q q' tasks is short e =
    let (r, stored, is') = submit_task-IsQueue t q tasks is short in
    let same : r ≡ q' = some-injective _ _ (sym stored ∙ e) in
    subst (λ r. IsQueue r (tasks ++ (t ∷ []))) same is'

get-queue :
    (t : Task) (q q' : Queue) (tasks : List Task)
    → IsQueue q tasks
    → 0 < q.count
    → first_task q ≡ some (t, q')
    → (rest : List Task) × (tasks ≡ t ∷ rest) × IsQueue q' rest
get-queue t q q' [] is pos e = absurd (omega (arith, is.count))
get-queue t q q' (x ∷ rest) is pos e =
    let (r, got, is') = first_task-IsQueue x q rest is in
    let same : (x, r) ≡ (t, q') = some-injective _ _ (sym got ∙ e) in
    (rest, ap (λ p. p.0 ∷ rest) same, subst (λ p. IsQueue p.1 rest) same is')

module _ (workers : ℕ) (made : List Task) (some_worker : 0 < workers) where
  Move-Inv :
      (m : Memory) (ls : List Pc) (i : ℕ) (l : Pc) (m' : Memory) (l' : Pc)
      → get_elem? ls i ≡ some l
      → Move m l m' l'
      → Inv workers made (record { shared = m; threads = ls })
      → Inv workers made (record { shared = m'; threads = set ls i l' })
  Move-Inv m ls i _ _ _ e (lock_submit more h) inv =
      let free : bit m.locked ≡ 0 = ap bit h in
      let c = changes ls i _ submitting e in
      record {
        counts = omega (
          arith,
          inv.counts,
          c,
          bit-le m.locked,
          total_mono stores in_section stores-section ls,
          ap length more,
        );
        heard = λ pos. omega (
          arith,
          inv.heard pos,
          c,
          total_mono stores in_section stores-section ls,
          ap length more,
        );
        order = inv.order;
      }
  Move-Inv m ls i _ _ _ e (put {t} {ts} {q} more stored) inv =
      let o = inv.order in
      let c = changes ls i _ submitted e in
      let one_less = ap length more in
      let is =
        put-queue t m.queue q o.tasks o.queue
          (omega (arith, o.queue.count, inv.counts.room, one_less)) stored in
      let longer = length-append o.tasks (t ∷ []) in
      record {
        counts = omega (arith, inv.counts, c, one_less, is.count, o.queue.count, longer);
        heard = λ pos. omega (arith, c);
        order = record {
          tasks = o.tasks ++ (t ∷ []);
          queue = is;
          order =
              ap (λ r. m.taken ++ r)
                (append_assoc o.tasks (t ∷ []) ts ∙ ap (λ r. o.tasks ++ r) (sym more))
              ∙ o.order;
        };
      }
  Move-Inv m ls i _ _ _ e unlock_submit inv =
      let c = changes ls i _ signalling e in
      record {
        counts = omega (arith, inv.counts, c, bit-le m.locked);
        heard = λ pos. omega (arith, inv.heard pos, c);
        order = inv.order;
      }
  Move-Inv m ls i _ _ _ e (signal_one h) inv =
      let c = changes ls i _ submit e in
      record {
        counts = omega (arith, inv.counts, c, bit-le m.locked);
        heard = λ pos. omega (arith, inv.heard pos, c);
        order = inv.order;
      }
  Move-Inv m ls i _ _ _ e (signal_none h) inv =
      let c = changes ls i _ submit e in
      record {
        counts = omega (arith, inv.counts, c, bit-le m.locked, h, some_worker, inv.counts);
        heard = λ pos. omega (arith, inv.heard pos, c, h, some_worker, inv.counts);
        order = inv.order;
      }
  Move-Inv m ls i _ _ _ e (lock_worker h) inv =
      let free : bit m.locked ≡ 0 = ap bit h in
      let c = changes ls i _ checking e in
      record {
        counts = omega (arith, inv.counts, c, bit-le m.locked);
        heard = λ pos. omega (arith, inv.heard pos, c);
        order = inv.order;
      }
  Move-Inv m ls i _ _ _ e (cond_wait h) inv =
      let c = changes ls i _ waiting e in
      record {
        counts = omega (arith, inv.counts, c, bit-le m.locked, h);
        heard = λ pos. omega (arith, inv.heard pos, c, h);
        order = inv.order;
      }
  Move-Inv m ls i _ _ _ e (wake h) inv =
      let c = changes ls i _ woken e in
      record {
        counts = omega (arith, inv.counts, c, bit-le m.locked);
        heard = λ pos. omega (arith, inv.heard pos, c);
        order = inv.order;
      }
  Move-Inv m ls i _ _ _ e (lock_again h) inv =
      let free : bit m.locked ≡ 0 = ap bit h in
      let c = changes ls i _ checking e in
      record {
        counts = omega (arith, inv.counts, c, bit-le m.locked);
        heard = λ pos. omega (arith, inv.heard pos, c);
        order = inv.order;
      }
  Move-Inv m ls i _ _ _ e (get {t} {q} some_task got) inv =
      let o = inv.order in
      let c = changes ls i _ (took t) e in
      let (rest, first, is) = get-queue t m.queue q o.tasks o.queue some_task got in
      record {
        counts = omega (arith, inv.counts, c, is.count, o.queue.count, ap length first);
        heard = λ pos. omega (arith, c, le-total awake ls i e);
        order = record {
          tasks = rest;
          queue = is;
          order =
              append_assoc m.taken (t ∷ []) (rest ++ m.todo)
              ∙ ap (λ r. m.taken ++ (r ++ m.todo)) (sym first)
              ∙ o.order;
        };
      }
  Move-Inv m ls i _ _ _ e (unlock_worker {t}) inv =
      let c = changes ls i _ (executing t) e in
      record {
        counts = omega (arith, inv.counts, c, bit-le m.locked);
        heard = λ pos. omega (arith, inv.heard pos, c);
        order = inv.order;
      }
  Move-Inv m ls i _ _ _ e (execute_task {t}) inv =
      let c = changes ls i _ starting e in
      record {
        counts = omega (arith, inv.counts, c, bit-le m.locked);
        heard = λ pos. omega (arith, inv.heard pos, c);
        order = inv.order;
      }

  AnyMove-Inv :
      (m : Memory) (ls : List Pc) (i : ℕ) (l : Pc) (m' : Memory) (l' : Pc)
      → get_elem? ls i ≡ some l
      → AnyMove m l m' l'
      → Inv workers made (record { shared = m; threads = ls })
      → Inv workers made (record { shared = m'; threads = set ls i l' })
  AnyMove-Inv m ls i l m' l' e (program mv) inv = Move-Inv m ls i l m' l' e mv inv
  AnyMove-Inv m ls i _ _ _ e (spurious h) inv =
      let c = changes ls i _ woken e in
      record {
        counts = omega (arith, inv.counts, c, h);
        heard = λ pos. omega (arith, inv.heard pos, c);
        order = inv.order;
      }

  pub Reach-Inv :
      (cells : List Task) {k : ℕ} {s : State Memory Pc}
      → length cells ≡ 256
      → length made ≤ 256
      → Reach AnyMove (started workers cells made) k s
      → Inv workers made s
  unfolding total
  Reach-Inv cells size fits r =
      Reach-invariant (λ _ s. Inv workers made s) (λ _. AnyMove-Inv)
        (record {
          counts = omega (
            arith,
            fits,
            total-replicate makes workers starting,
            total-replicate stores workers starting,
            total-replicate awake workers starting,
            total-replicate sleeps workers starting,
            total-replicate in_section workers starting,
          );
          heard = λ pos. absurd (omega arith);
          order = record {
            tasks = [];
            queue = record { rest = cells; cells = refl; count = refl; size = size };
            order = refl;
          };
        })
        r
