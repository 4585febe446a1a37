-- ===== src/Shell/Command/Frame.antt =====
-- What a node of shell.c stands for survives changes to other nodes.
use sysprog_solutions.Common.{
  ℕ, zero, suc, ◌<◌, ◌≡◌, ◌∙◌, refl, List, [], ◌∷◌, ◌++◌, Option, none, some, get_elem?, set,
  length, lt-of-get_elem?, get_elem?-append, get_elem?-set_ne, replicate, arith, ◌≤◌, ap, sym,
}
use sysprog_solutions.Shell.Lexer.{Text}
use sysprog_solutions.Shell.Syntax.{Command, Redirection, mode_of, fd_of, redirected}
use sysprog_solutions.Shell.Command.{Denotes, Wraps, here, wrap, arguments}
use sysprog_solutions.Shell.Heap.{Heap, Node}

-- The first `b` nodes are the same.
pub record Keeps (b : ℕ) (h g : Heap) : Type 0 where
  pub at : {n : Node} (i : ℕ) → i < b → get_elem? h i ≡ some n → get_elem? g i ≡ some n

pub Keeps-refl : (b : ℕ) (h : Heap) → Keeps b h h
Keeps-refl b h = record { at = λ i lt e. e }

pub Keeps-trans : {b b' : ℕ} {h g k : Heap} → Keeps b h g → Keeps b' g k → b ≤ b' → Keeps b h k
Keeps-trans f f' l = record { at = λ i lt e. f'.at i (omega arith) (f.at i lt e) }

pub Keeps-then : {b : ℕ} {h g k : Heap} → Keeps b h g → Keeps (length g) g k → Keeps b h k
Keeps-then {g} f f' = record {
  at = λ i lt e. f'.at i (lt-of-get_elem? g i (f.at i lt e)) (f.at i lt e);
}

pub Keeps-append : (b : ℕ) (h g : Heap) → Keeps b h (h ++ g)
Keeps-append b h g = record { at = λ i lt e. get_elem?-append h g i e }

pub Keeps-set : (b : ℕ) (h : Heap) (p : ℕ) (n : Node) → b ≤ p → Keeps b h (set h p n)
Keeps-set b h p n l = record { at = λ i lt e. get_elem?-set_ne h p i n (omega arith) ∙ e }

pub Denotes-Keeps :
    {h g : Heap} {p : ℕ} {c : Command} → Denotes h p c → Keeps (length h) h g → Denotes g p c
Denotes-Keeps {h} (Denotes.exec {p} e) f = Denotes.exec (f.at p (lt-of-get_elem? h p e) e)
Denotes-Keeps {h} (Denotes.pipe {p} e l r) f =
    Denotes.pipe (f.at p (lt-of-get_elem? h p e) e) (Denotes-Keeps l f) (Denotes-Keeps r f)
Denotes-Keeps {h} (Denotes.redirect {p} e d) f =
    Denotes.redirect (f.at p (lt-of-get_elem? h p e) e) (Denotes-Keeps d f)

pub Wraps-append :
    {h : Heap} {p q : ℕ} {rs : List Redirection} (g : Heap) → Wraps h p q rs → Wraps (h ++ g) p q rs
Wraps-append g here = here
Wraps-append {h} g (wrap {q} e ne w) = wrap (get_elem?-append h g q e) ne (Wraps-append g w)

pub Wraps-set :
    {h : Heap} {p q : ℕ} {rs : List Redirection} (n : Node)
    → Wraps h p q rs
    → Wraps (set h p n) p q rs
Wraps-set n here = here
Wraps-set {h} {p} n (wrap {q} e ne w) =
    wrap (get_elem?-set_ne h p q n (λ x. ne (sym x)) ∙ e) ne (Wraps-set n w)

-- Redirections round a command, the outermost first.
abbrev pub outer : List Redirection → Command → Command
outer [] c = c
outer (r ∷ rs) c = Command.redirect (outer rs c) r.file (mode_of r.direction) (fd_of r.direction)

abbrev pub push : List Redirection → List Redirection → List Redirection
push [] acc = acc
push (r ∷ rs) acc = push rs (r ∷ acc)

pub redirected-outer :
    (rs acc : List Redirection) (c : Command) → redirected (outer acc c) rs ≡ outer (push rs acc) c
redirected-outer [] acc c = refl
redirected-outer (r ∷ rs) acc c = redirected-outer rs (r ∷ acc) c

pub push-append : (rs ss acc : List Redirection) → push (rs ++ ss) acc ≡ push ss (push rs acc)
push-append [] ss acc = refl
push-append (r ∷ rs) ss acc = push-append rs ss (r ∷ acc)

pub Wraps-Denotes :
    {h : Heap} {p q : ℕ} {rs : List Redirection} {argv : List (Option Text)}
    → Wraps h p q rs
    → get_elem? h p ≡ some (Node.exec argv)
    → Denotes h q (outer rs (Command.exec (arguments argv)))
Wraps-Denotes here e = Denotes.exec e
Wraps-Denotes (wrap f ne w) e = Denotes.redirect f (Wraps-Denotes w e)

-- An argument array of `n` slots that holds the words `ws`.
abbrev pub pad : ℕ → List Text → List (Option Text)
pad n [] = replicate n none
pad zero (w ∷ ws) = []
pad (suc n) (w ∷ ws) = some w ∷ pad n ws

pub length-pad : (n : ℕ) (ws : List Text) → length (pad n ws) ≡ n
length-pad zero [] = refl
length-pad (suc n) [] = ap suc (length-pad n [])
length-pad zero (w ∷ ws) = refl
length-pad (suc n) (w ∷ ws) = ap suc (length-pad n ws)

pub arguments-pad : (n : ℕ) (ws : List Text) → length ws ≤ n → arguments (pad n ws) ≡ ws
arguments-pad zero [] h = refl
arguments-pad (suc n) [] h = refl
arguments-pad zero (w ∷ ws) h = absurd (omega arith)
arguments-pad (suc n) (w ∷ ws) h = ap (◌∷◌ w) (arguments-pad n ws (omega arith))

pub set-pad-some :
    (n : ℕ) (ws : List Text) (w : Text)
    → length ws < n
    → set (pad n ws) (length ws) (some w) ≡ pad n (ws ++ w ∷ [])
set-pad-some zero ws w h = absurd (omega arith)
set-pad-some (suc n) [] w h = refl
set-pad-some (suc n) (v ∷ ws) w h = ap (◌∷◌ (some v)) (set-pad-some n ws w (omega arith))

pub set-pad-none :
    (n : ℕ) (ws : List Text) → length ws < n → set (pad n ws) (length ws) none ≡ pad n ws
set-pad-none zero ws h = absurd (omega arith)
set-pad-none (suc n) [] h = refl
set-pad-none (suc n) (v ∷ ws) h = ap (◌∷◌ (some v)) (set-pad-none n ws (omega arith))
