-- ===== src/Shell/Command/Total.antt =====
-- Every valid node of shell.c stands for a command: a walk over it, as in `run_cmd`, ends.
use sysprog_solutions.Common.{ℕ, zero, suc, ◌<◌, ◌≡◌, [], ◌∷◌, some, get_elem?, length, arith, refl}
use sysprog_solutions.Shell.Syntax.{Command}
use sysprog_solutions.Shell.Command.{Denotes}
use sysprog_solutions.Shell.Heap.{Heap, Node}
use sysprog_solutions.Shell.Heap.Valid.{Valid, Valid-at}

node_at : (h : Heap) (p : ℕ) → p < length h → (n : Node) × (get_elem? h p ≡ some n)
node_at [] p lt = absurd (omega arith)
node_at (n ∷ h) zero lt = (n, refl)
node_at (n ∷ h) (suc p) lt = node_at h p (omega arith)

pub Valid-Denotes :
    (k : ℕ) (h : Heap) (p : ℕ) → Valid h → p < length h → p < k → (c : Command) × Denotes h p c
Valid-Denotes zero h p v lt below = absurd (omega arith)
Valid-Denotes (suc k) h p v lt below =
    let (n, e) = node_at h p lt in
    node n e (λ q le. Valid-Denotes k h q v (omega arith) (omega arith))
  where
    node :
        (n : Node)
        → get_elem? h p ≡ some n
        → ((q : ℕ) → q < p → (c : Command) × Denotes h q c)
        → (c : Command) × Denotes h p c
    node (Node.exec argv) e ih = (_, Denotes.exec e)
    node (Node.pipe left right) e ih =
        let (l, r) = Valid-at h p v e in
        let (c, dc) = ih left l in
        let (d, dd) = ih right r in (Command.pipe c d, Denotes.pipe e dc dd)
    node (Node.redirect q file mode fd) e ih =
        let (c, dc) = ih q (Valid-at h p v e) in
        (Command.redirect c file mode fd, Denotes.redirect e dc)
