-- ===== src/Matmul/OutGoal.antt =====
-- case_studies/matmul/matmul_out_goal.c
use optitrust.Prelude.{ℕ, ◌+◌, ◌*◌, ◌≡◌, Option, List, [], ◌∷◌, arith, length}
use optitrust.Prelude.Options.{◌>>=◌}
use optitrust.Loops.{for_loop}
use optitrust.Loops.Ensures.{Ensures, bind-Ensures}
use optitrust.Reals.{Reals}
use optitrust.Matmul.{Uninitialised, memcpy, clear, add_multiples}
use optitrust.Matmul.Arrays.{Holds}
use optitrust.Matmul.Pack.{pack-blocks}
use optitrust.Matmul.Tile.{clear-tile, product}
use optitrust.Matmul.PackedRow.{packed-copied-row}
use optitrust.Matmul.Blocks.{blocks-lem}

module _ {S : Type 0} (R : Reals S) (u : Uninitialised S) where
  unfoldable pub mm1024 : List S → List S → List S → Option (List S)
  mm1024 C A B = do
    pB ←
        for_loop 32 0
          (λ bj. for_loop 256 0 λ bk.
            for_loop 4 0
              λ k d. memcpy 32 d (32768 * bj + 128 * bk + 32 * k) B (1024 * (4 * bk + k) + 32 * bj))
          (u.cells [] 1048576)
    for_loop 32 0
        (λ bi. for_loop 32 0 λ bj c. do
          sum ← clear R 1024 (u.cells (bi ∷ bj ∷ []) 1024)
          sum ←
              for_loop 256 0
                (λ bk. for_loop 32 0 λ i d. do
                  tmp ← memcpy 32 (u.cells (bi ∷ bj ∷ bk ∷ i ∷ []) 32) 0 d (32 * i)
                  tmp ←
                      add_multiples R 32 tmp (λ j. j) A (1024 * (32 * bi + i) + 4 * bk + 0) pB
                        (λ j. 32768 * bj + 128 * bk + 32 * 0 + j)
                  tmp ←
                      add_multiples R 32 tmp (λ j. j) A (1024 * (32 * bi + i) + 4 * bk + 1) pB
                        (λ j. 32768 * bj + 128 * bk + 32 * 1 + j)
                  tmp ←
                      add_multiples R 32 tmp (λ j. j) A (1024 * (32 * bi + i) + 4 * bk + 2) pB
                        (λ j. 32768 * bj + 128 * bk + 32 * 2 + j)
                  tmp ←
                      add_multiples R 32 tmp (λ j. j) A (1024 * (32 * bi + i) + 4 * bk + 3) pB
                        (λ j. 32768 * bj + 128 * bk + 32 * 3 + j)
                  memcpy 32 d (32 * i) tmp 0)
                sum
          for_loop 32 0 (λ i d. memcpy 32 d (1024 * (32 * bi + i) + 32 * bj) sum (32 * i)) c)
        C

  pub mm1024-lem :
      (a b : ℕ → S) (C A B : List S)
      → length C ≡ 1048576
      → Holds 1048576 a A
      → Holds 1048576 b B
      → Ensures (Holds 1048576 (product R a b)) (mm1024 C A B)
  unfolding mm1024
  mm1024-lem a b C A B size hA hB =
      bind-Ensures
        (pack-blocks R b B hB _ _ (u.cells [] 1048576) (λ bj bk k j. omega arith)
          (λ bj bk k j. omega arith) (u.length_cells _ _))
        λ pB whole.
          blocks-lem R a b C _ _ _ _ size
            (λ bi bj. clear-tile R a b bi bj (u.cells (bi ∷ bj ∷ []) 1024) (u.length_cells _ _))
            (λ bi bj bk i t hi hj hk hr h.
              packed-copied-row R a b A hA whole bi bj bk i hi hj hk hr _ _ _ _ _ _ _ _
                (omega arith) (omega arith) (omega arith) (omega arith) (λ j. omega arith)
                (λ j. omega arith) (λ j. omega arith) (λ j. omega arith)
                (u.cells (bi ∷ bj ∷ bk ∷ i ∷ []) 32) t _ _ _ _ _ _ _ _ (u.length_cells _ _)
                (λ j. omega arith) (λ j. omega arith) (λ j. omega arith) (λ j. omega arith)
                (λ j. omega arith) (λ j. omega arith) (λ j. omega arith) (λ j. omega arith) h)
            (λ bi bj i j. omega arith) (λ bi bj i j. omega arith)
