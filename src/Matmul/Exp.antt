-- ===== src/Matmul/Exp.antt =====
-- case_studies/matmul/matmul_exp.cpp
use optitrust.Prelude.{ℕ, ◌+◌, ◌*◌, ◌≡◌, Option, List, [], ◌∷◌, arith, length}
use optitrust.Prelude.Options.{◌>>=◌}
use optitrust.Loops.{for_loop}
use optitrust.Loops.Ensures.{Ensures, bind-Ensures}
use optitrust.Reals.{Reals, zero_real}
use optitrust.Matmul.{Uninitialised, copy, memcpy, fill, add_multiples}
use optitrust.Matmul.Arrays.{Holds}
use optitrust.Matmul.Pack.{pack-blocks}
use optitrust.Matmul.Tile.{zero-tile, product}
use optitrust.Matmul.PackedRow.{packed-copied-row}
use optitrust.Matmul.Blocks.{blocks-lem}

module _ {S : Type 0} (R : Reals S) (u : Uninitialised S) where
  unfoldable pub mm1024 : List S → List S → List S → Option (List S)
  mm1024 C A B = do
    pB ←
        for_loop 32 0
          (λ bj. for_loop 256 0 λ bk. for_loop 4 0 λ k d.
            copy 32 d (λ j. 32768 * bj + 128 * bk + 32 * k + j) B
              (λ j. 1024 * (4 * bk + k) + 32 * bj + j))
          (u.cells [] 1048576)
    for_loop 32 0
        (λ bi. for_loop 32 0 λ bj c. do
          sum ←
              for_loop 32 0 (λ i d. fill 32 d (λ j. 32 * i + j) (zero_real R))
                (u.cells (bi ∷ bj ∷ []) 1024)
          sum ←
              for_loop 256 0
                (λ bk. for_loop 32 0 λ i d. do
                  s ← memcpy 32 (u.cells (bi ∷ bj ∷ bk ∷ i ∷ []) 32) 0 d (32 * i)
                  s ←
                      add_multiples R 32 s (λ j. j) A (1024 * (32 * bi + i) + 4 * bk) pB
                        (λ j. 32768 * bj + 128 * bk + j)
                  s ←
                      add_multiples R 32 s (λ j. j) A (1024 * (32 * bi + i) + 4 * bk + 1) pB
                        (λ j. 32768 * bj + 128 * bk + 32 + j)
                  s ←
                      add_multiples R 32 s (λ j. j) A (1024 * (32 * bi + i) + 4 * bk + 2) pB
                        (λ j. 32768 * bj + 128 * bk + 32 * 2 + j)
                  s ←
                      add_multiples R 32 s (λ j. j) A (1024 * (32 * bi + i) + 4 * bk + 3) pB
                        (λ j. 32768 * bj + 128 * bk + 32 * 3 + j)
                  memcpy 32 d (32 * i) s 0)
                sum
          for_loop 32 0
              (λ i d. copy 32 d (λ j. 1024 * (32 * bi + i) + 32 * bj + j) sum (λ j. 32 * i + j)) c)
        C

  pub mm1024-lem :
      (a b : ℕ → S) (C A B : List S)
      → length C ≡ 1048576
      → Holds 1048576 a A
      → Holds 1048576 b B
      → Ensures (Holds 1048576 (product R a b)) (mm1024 C A B)
  unfolding mm1024
  mm1024-lem a b C A B size hA hB =
      bind-Ensures
        (pack-blocks R b B hB _ _ (u.cells [] 1048576) (λ bj bk k j. omega arith)
          (λ bj bk k j. omega arith) (u.length_cells _ _))
        λ pB whole.
          blocks-lem R a b C _ _ _ _ size
            (λ bi bj.
              zero-tile R a b bi bj _ (u.cells (bi ∷ bj ∷ []) 1024) (λ i j. omega arith)
                (u.length_cells _ _))
            (λ bi bj bk i t hi hj hk hr h.
              packed-copied-row R a b A hA whole bi bj bk i hi hj hk hr _ _ _ _ _ _ _ _
                (omega arith) (omega arith) (omega arith) (omega arith) (λ j. omega arith)
                (λ j. omega arith) (λ j. omega arith) (λ j. omega arith)
                (u.cells (bi ∷ bj ∷ bk ∷ i ∷ []) 32) t _ _ _ _ _ _ _ _ (u.length_cells _ _)
                (λ j. omega arith) (λ j. omega arith) (λ j. omega arith) (λ j. omega arith)
                (λ j. omega arith) (λ j. omega arith) (λ j. omega arith) (λ j. omega arith) h)
            (λ bi bj i j. omega arith) (λ bi bj i j. omega arith)
