-- ===== src/Common/Outcomes.antt =====
-- Stateful C code that may stop: a state monad over an outcome, with postconditions.
use mathlib.Core.Path.{◌≡◌, refl, subst}

pub data Outcome (E A : Type 0) : Type 0 where
  ok : A → Outcome E A
  err : E → Outcome E A

-- A command runs in a state `S` and may stop with an `E`.
abbrev pub Cmd : (E S A : Type 0) → Type 0
Cmd E S A = S → Outcome E (A × S)

module _ {E S A : Type 0} where
  abbrev pub and_then : {B : Type 0} → Outcome E (A × S) → (A → Cmd E S B) → Outcome E (B × S)
  and_then (ok (a, s)) k = k a s
  and_then (err e) k = err e

  abbrev pub pure : A → Cmd E S A
  pure a s = ok (a, s)

  abbrev pub raise : E → Cmd E S A
  raise e s = err e

  infixl 5 ◌>>=◌
  abbrev pub ◌>>=◌ : {B : Type 0} → Cmd E S A → (A → Cmd E S B) → Cmd E S B
  ◌>>=◌ m k s = and_then (m s) k

infixl 5 ◌>>◌
abbrev pub ◌>>◌ : {E S B : Type 0} → Cmd E S (Unit {0}) → Cmd E S B → Cmd E S B
m >> k = m >>= λ _. k

-- The run returns and `P` holds of its result and final state, or it stops with an error in `Q`.
pub data Ensures {E S A : Type 0} (P : A → S → Type 0) (Q : E → Type 0)
    : Outcome E (A × S) → Type 0 where
  returns : {a : A} {s : S} → P a s → Ensures P Q (ok (a, s))
  stops : {e : E} → Q e → Ensures P Q (err e)

module _ {E S A : Type 0} {P : A → S → Type 0} {Q : E → Type 0} where
  pub bind :
      {B : Type 0} {R : B → S → Type 0} {r : Outcome E (A × S)} {k : A → Cmd E S B}
      → Ensures P Q r
      → ((a : A) (s : S) → P a s → Ensures R Q (k a s))
      → Ensures R Q (and_then r k)
  bind (returns p) next = next _ _ p
  bind (stops q) next = stops q

  pub mono :
      {P' : A → S → Type 0} {Q' : E → Type 0} {r : Outcome E (A × S)}
      → Ensures P Q r
      → ((a : A) (s : S) → P a s → P' a s)
      → ((e : E) → Q e → Q' e)
      → Ensures P' Q' r
  mono (returns p) f g = returns (f _ _ p)
  mono (stops q) f g = stops (g _ q)

  -- What a postcondition says of a run whose outcome is known.
  pub of_returns : {r : Outcome E (A × S)} {a : A} {s : S} → Ensures P Q r → r ≡ ok (a, s) → P a s
  of_returns (returns {a = b} {s = t} p) h = subst (λ (o : A × S). P o.0 o.1) (cc) p
  of_returns (stops q) h = cc

  pub of_stops : {r : Outcome E (A × S)} {e : E} → Ensures P Q r → r ≡ err e → Q e
  of_stops (returns p) h = cc
  of_stops (stops q) h = subst Q (cc) q

-- A run that cannot stop returns.
pub ensured :
    {E S A : Type 0} {P : A → S → Type 0} {r : Outcome E (A × S)}
    → Ensures P (λ _. ⊥) r
    → (a : A) × (s : S) × (r ≡ ok (a, s)) × P a s
ensured (returns {a} {s} p) = (a, s, refl, p)
ensured (stops q) = absurd q

-- Of a run that never returns, what is known of its errors.
pub never_returns :
    {E S A : Type 0} {P : A → S → Type 0} {Q R : E → Type 0} {r : Outcome E (A × S)}
    → Ensures P Q r
    → Ensures (λ _ _. ⊥) R r
    → Ensures (λ _ _. ⊥) Q r
never_returns (returns p) never = absurd (of_returns never refl)
never_returns (stops q) never = stops q
