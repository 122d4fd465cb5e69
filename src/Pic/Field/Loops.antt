-- ===== src/Pic/Field/Loops.antt =====
-- The rules for the loops that fill and update arrays.
use mathlib.Core.Path.{subst}
use optitrust.Prelude.{
  ℕ, zero, suc, ◌+◌, ◌<◌, ◌≡◌, refl, Option, some, List, [], ◌∷◌, arith, get_elem?,
}
use optitrust.Loops.{for_loop}
use optitrust.Loops.Ensures.{for_loop-Ensures, given-Ensures, result-Ensures}
use optitrust.Pic.Field.{fill_loop}

fill_loop-lem :
    {A : Type 0} (Q : ℕ → A → Type 0) (body : ℕ → Option A) (left first : ℕ)
    → ((i : ℕ) → i < first + left → (x : A) × (body i ≡ some x) × Q i x)
    → (xs : List A) × (fill_loop left first body ≡ some xs)
      × ((i : ℕ) → i < left → (x : A) × (get_elem? xs i ≡ some x) × Q (first + i) x)
unfolding fill_loop
fill_loop-lem Q body zero first each = ([], refl, λ i h. absurd (omega arith))
fill_loop-lem {A} Q body (suc left) first each =
    let (x, e, q) = each first (omega arith) in
    let (xs, es, qs) = fill_loop-lem Q body left (first + 1) (λ i h. each i (omega arith)) in
    (x ∷ xs, rw (e, es) refl, nth x xs q qs)
  where
    nth :
        (x : A) (xs : List A)
        → Q first x
        → ((i : ℕ) → i < left → (y : A) × (get_elem? xs i ≡ some y) × Q (first + 1 + i) y)
        → (i : ℕ) → i < suc left
        → (y : A) × (get_elem? (x ∷ xs) i ≡ some y) × Q (first + i) y
    nth x xs q qs zero h = (x, refl, subst (λ (n : ℕ). Q n x) (omega arith) q)
    nth x xs q qs (suc i) h =
        let (y, e, q') = qs i (omega arith) in (y, e, subst (λ (n : ℕ). Q n y) (omega arith) q')

-- The loop rule in the form of a result with its equation.
pub loop-inv :
    {A : Type 0} (I : ℕ → A → Type 0) (body : ℕ → A → Option A) (n : ℕ)
    → ((i : ℕ) (s : A) → i < n → I i s → (s' : A) × (body i s ≡ some s') × I (i + 1) s')
    → (s : A) → I 0 s
    → (s' : A) × (for_loop n 0 body s ≡ some s') × I n s'
loop-inv I body n keep s inv =
    result-Ensures (for_loop-Ensures I (λ i t h k. given-Ensures (keep i t h k)) s inv)

-- The rule for an array that is filled from its start.
pub fill-lem :
    {A : Type 0} (Q : ℕ → A → Type 0) (body : ℕ → Option A) (n : ℕ)
    → ((i : ℕ) → i < n → (x : A) × (body i ≡ some x) × Q i x)
    → (xs : List A) × (fill_loop n 0 body ≡ some xs)
      × ((i : ℕ) → i < n → (x : A) × (get_elem? xs i ≡ some x) × Q i x)
fill-lem Q body n each =
    let (xs, e, qs) = fill_loop-lem Q body n 0 (λ i h. each i (omega arith)) in
    (xs, e, λ i h. (let (x, f, q) = qs i h in (x, f, subst (λ (m : ℕ). Q m x) (omega arith) q)))
