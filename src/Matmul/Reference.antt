-- ===== src/Matmul/Reference.antt =====
-- The product of two matrices in case_studies/matmul/matmul.cpp. The indices are those of C as long
-- as they fit an `int`, and the sizes of the matrices are not negative.
use optitrust.Prelude.{
  ℕ, ◌+◌, ◌*◌, ◌/◌, ◌%◌, sym, ◌∙◌, ◌<◌, ◌≡◌, refl, Option, some, List, get_elem?, length, arith,
}
use optitrust.Prelude.Options.{◌>>=◌}
use optitrust.Loops.{for_loop, write}
use optitrust.Loops.Ensures.{Ensures, bind-Ensures, for_loop-Ensures, yields}
use optitrust.Reals.{Reals, zero_real}
use optitrust.Matrix.{mindex2}
use optitrust.Matmul.Arrays.{
  Holds, contents, contents-Holds, write-At, nest-At, start-At, end-At, in_order,
}
use optitrust.Matmul.Tile.{dot, dot-next, dot_zero, product}

module _ {S : Type 0} (R : Reals S) where
  unfoldable pub mm : List S → List S → List S → ℕ → ℕ → ℕ → Option (List S)
  mm C A B m n p =
      for_loop m 0
        (λ i. for_loop n 0 λ j c. do
          sum ←
              for_loop p 0
                (λ k s. do
                  x ← get_elem? A (mindex2 m p i k)
                  y ← get_elem? B (mindex2 p n k j)
                  some (R.add s (R.mul x y)))
                (zero_real R)
          write c (mindex2 m n i j) sum)
        C

  unfoldable pub mm1024 : List S → List S → List S → Option (List S)
  mm1024 C A B = mm C A B 1024 1024 1024

  sum-lem :
      (a b : ℕ → S) (A B : List S)
      → Holds 1048576 a A
      → Holds 1048576 b B
      → (i j : ℕ) → i < 1024
      → j < 1024
      → Ensures
          (λ s. s ≡ dot R a b 1024 i j)
          (for_loop 1024 0
            (λ k s. do
              x ← get_elem? A (mindex2 1024 1024 i k)
              y ← get_elem? B (mindex2 1024 1024 k j)
              some (R.add s (R.mul x y)))
            (zero_real R))
  unfolding mindex2
  sum-lem a b A B hA hB i j hi hj =
      for_loop-Ensures (λ k s. s ≡ dot R a b k i j)
        (λ k s hk e.
          (let left : i * 1024 + k ≡ 1024 * i + k = omega arith in
            let right : k * 1024 + j ≡ 1024 * k + j = omega arith in
            rw
              (
                left,
                right,
                hA.elem (1024 * i + k) (omega arith),
                hB.elem (1024 * k + j) (omega arith),
                e,
              )
              (yields (dot-next R a b k (k + 1) i j refl))))
        (zero_real R) (sym (dot_zero R a b i j))

  pub mm1024-lem :
      (a b : ℕ → S) (C A B : List S)
      → length C ≡ 1048576
      → Holds 1048576 a A
      → Holds 1048576 b B
      → Ensures (Holds 1048576 (product R a b)) (mm1024 C A B)
  unfolding mm1024 mm mindex2
  mm1024-lem a b C A B size hA hB =
      let w = in_order 1048576 (product R a b) (contents R C) in
      end-At w 1048576 (λ q lt. lt)
        (nest-At w (λ i. 1024 * i) _ _ refl refl
          (λ i _ hi.
            nest-At w (λ j. 1024 * i + j) _ _ (omega arith) (omega arith)
              λ j _ hj h. bind-Ensures (sum-lem a b A B hA hB i j hi hj) λ s e.
                write-At w _ _ _ s h (omega arith) (omega arith) (omega arith) (
                  e
                  ∙ (let row : (i * 1024 + j) / 1024 ≡ i = omega arith in
                      let column : (i * 1024 + j) % 1024 ≡ j = omega arith in
                      rw (row, column) refl)))
          (start-At w (contents-Holds R 1048576 C size)))
