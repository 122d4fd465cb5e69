-- ===== src/Loops/Ensures.antt =====
-- What a computation of C returns: it does return, and its result has a property.
use mathlib.Core.Path.{subst}
use optitrust.Prelude.{ℕ, zero, suc, ◌+◌, ◌<◌, ◌≡◌, refl, Option, some, arith}
use optitrust.Prelude.Options.{◌>>=◌}
use optitrust.Loops.{for_loop}

pub data Ensures {A : Type 0} (P : A → Type 0) : Option A → Type 0 where
  yields : {x : A} → P x → Ensures P (some x)

pub bind-Ensures :
    {A B : Type 0} {P : A → Type 0} {Q : B → Type 0} {m : Option A} {k : A → Option B}
    → Ensures P m
    → ((x : A) → P x → Ensures Q (k x))
    → Ensures Q (m >>= k)
bind-Ensures (yields {x} p) f = f x p

pub mono-Ensures :
    {A : Type 0} {P Q : A → Type 0} {m : Option A}
    → Ensures P m
    → ((x : A) → P x → Q x)
    → Ensures Q m
mono-Ensures (yields {x} p) f = yields (f x p)

pub result-Ensures :
    {A : Type 0} {P : A → Type 0} {m : Option A} → Ensures P m → (x : A) × (m ≡ some x) × P x
result-Ensures (yields {x} p) = (x, refl, p)

pub given-Ensures :
    {A : Type 0} {P : A → Type 0} {m : Option A} → (x : A) × (m ≡ some x) × P x → Ensures P m
given-Ensures (x, e, p) = rw e (yields p)

pub for_loop_from :
    {A : Type 0} (I : ℕ → A → Type 0) (body : ℕ → A → Option A) (left first : ℕ)
    → ((i : ℕ) (s : A) → i < first + left → I i s → Ensures (I (i + 1)) (body i s))
    → (s : A) → I first s
    → Ensures (I (first + left)) (for_loop left first body s)
unfolding for_loop
for_loop_from I body zero first keep s inv = yields (subst (λ (n : ℕ). I n s) (omega arith) inv)
for_loop_from I body (suc left) first keep s inv =
    bind-Ensures (keep first s (omega arith) inv) λ t inv'.
      mono-Ensures
        (for_loop_from I body left (first + 1) (λ i u h k. keep i u (omega arith) k) t inv')
        λ u k. subst (λ (n : ℕ). I n u) (omega arith) k

-- The loop rule: an invariant that every iteration keeps holds at the end.
pub for_loop-Ensures :
    {A : Type 0} (I : ℕ → A → Type 0) {body : ℕ → A → Option A} {n : ℕ}
    → ((i : ℕ) (s : A) → i < n → I i s → Ensures (I (i + 1)) (body i s))
    → (s : A) → I 0 s
    → Ensures (I n) (for_loop n 0 body s)
for_loop-Ensures I {body} {n} keep s inv =
    mono-Ensures (for_loop_from I body n 0 (λ i t h k. keep i t (omega arith) k) s inv)
      λ u k. subst (λ (m : ℕ). I m u) (omega arith) k
