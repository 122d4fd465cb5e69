-- ===== src/Memory/Returns.antt =====
-- Total correctness of a command: no fault, no exit, enough fuel, and a postcondition.
use optitrust.Memory.{State, Run, ok, Cmd, and_then}

pub data Returns {Pool P A : Type 0} (Q : A → State Pool P → Type 0) : Run Pool P A → Type 0 where
  returns : {a : A} {st : State Pool P} → Q a st → Returns Q (ok a st)

module _ {Pool P A : Type 0} {Q : A → State Pool P → Type 0} where
  pub bind :
      {B : Type 0} {R : B → State Pool P → Type 0} {r : Run Pool P A} {k : A → Cmd Pool P B}
      → Returns Q r
      → ((a : A) (st : State Pool P) → Q a st → Returns R (k a st))
      → Returns R (and_then r k)
  bind (returns q) next = next _ _ q

  pub mono :
      {R : A → State Pool P → Type 0} {r : Run Pool P A}
      → Returns Q r
      → ((a : A) (st : State Pool P) → Q a st → R a st)
      → Returns R r
  mono (returns q) weaken = returns (weaken _ _ q)

  -- A bind inside the first part of another.
  pub bind_assoc :
      {B C : Type 0} {R : C → State Pool P → Type 0} {r : Run Pool P A} (k : A → Cmd Pool P B)
      (n : B → Cmd Pool P C)
      → Returns Q r
      → ((a : A) (st : State Pool P) → Q a st → Returns R (and_then (k a st) n))
      → Returns R (and_then (and_then r k) n)
  bind_assoc k n (returns q) next = next _ _ q
