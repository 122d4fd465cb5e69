-- ===== src/Loops/Stride.antt =====
-- Loops that count in steps: they end after one iteration for each step below the bound.
use optitrust.Prelude.{ℕ, zero, suc, ◌+◌, ◌*◌, ◌<◌, ◌≤◌, ◌≡◌, Option, arith, ltb, true, false}
use optitrust.Loops.{stride_loop, for_by}
use optitrust.Loops.Ensures.{Ensures, yields, bind-Ensures}
use mathlib.Core.Path.{subst}

module _ {A : Type 0} (I : ℕ → A → Type 0) (body : ℕ → A → Option A) (start step total : ℕ)
    (pos : 0 < step)
    (keep : (i : ℕ) (s : A)
      → i < total
      → I i s
      → Ensures (I (i + 1)) (body (start + step * i) s)) where
  stride_loop-Ensures :
      (left done fuel first bound : ℕ)
      → left < fuel
      → done + left ≡ total
      → first ≡ start + step * done
      → bound ≡ first + step * left
      → (s : A) → I done s
      → Ensures (I total) (stride_loop fuel first bound step body s)
  unfolding stride_loop
  stride_loop-Ensures left done zero first bound lt all at end s inv = absurd (omega arith)
  stride_loop-Ensures zero done (suc fuel) first bound lt all at end s inv =
      let stop : ltb first bound ≡ false =
        (let e : bound ≡ first = omega (arith, end) in ground arith) in
      rw stop (yields (subst (λ (m : ℕ). I m s) (omega arith) inv))
  stride_loop-Ensures (suc left) done (suc fuel) first bound lt all at end s inv =
      let e : bound ≡ first + step + step * left = omega (arith, end) in
      let go : ltb first bound ≡ true = ground arith in
      rw go (
        bind-Ensures (rw at (keep done s (omega arith) inv)) λ s' inv'.
          stride_loop-Ensures left (done + 1) fuel (first + step) bound (omega arith) (omega arith)
            (omega (arith, at)) e s' inv')

  -- The rule for a loop that counts in steps of at least one: it ends, after `total` iterations.
  pub for_by-Ensures :
      (bound : ℕ)
      → bound ≡ start + step * total
      → (s : A) → I 0 s
      → Ensures (I total) (for_by start bound step body s)
  for_by-Ensures bound end s inv =
      stride_loop-Ensures total 0 (suc bound) start bound (omega (arith, end, below total))
        (omega arith) (omega arith) end s inv
    where
      below : (n : ℕ) → n ≤ step * n
      below zero = omega arith
      below (suc n) =
          (let ih = below n in let e : step * suc n ≡ step * n + step = omega arith in omega arith)
