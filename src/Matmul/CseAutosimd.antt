-- ===== src/Matmul/CseAutosimd.antt =====
-- case_studies/matmul/matmul_opt_spec_cse_autosimd_ssum_tmp.c
use optitrust.Prelude.{ℕ, ◌+◌, ◌*◌, ◌≡◌, Option, List, [], ◌∷◌, arith, length}
use optitrust.Prelude.Options.{◌>>=◌}
use optitrust.Loops.{for_loop}
use optitrust.Loops.Ensures.{Ensures, bind-Ensures}
use optitrust.Reals.{Reals, zero_real}
use optitrust.Matmul.{Uninitialised, ◌<<◌, copy, fill, add_multiples}
use optitrust.Matmul.Arrays.{Holds}
use optitrust.Matmul.Pack.{pack-rows}
use optitrust.Matmul.Tile.{zero-tile, product}
use optitrust.Matmul.PackedRow.{packed-copied-row}
use optitrust.Matmul.Blocks.{blocks-lem}

module _ {S : Type 0} (R : Reals S) (u : Uninitialised S) where
  unfoldable pub mm1024 : List S → List S → List S → Option (List S)
  mm1024 C A B = do
    pB ←
        for_loop 32 0
          (λ bj. for_loop 1024 0 λ k d.
            let c1 = (k * 32) + (bj * 32768) in
            let c2 = (bj * 32) + (k * 1024) in copy 32 d (λ j. c1 + j) B (λ j. c2 + j))
          (u.cells [] 1048576)
    for_loop 32 0
        (λ bi. for_loop 32 0 λ bj c. do
          sum ←
              for_loop 32 0 (λ i d. fill 32 d (λ j. (i * 32) + j) (zero_real R))
                (u.cells (bi ∷ bj ∷ []) 1024)
          sum ←
              for_loop 256 0
                (λ bk. for_loop 32 0 λ i d.
                  let c3 = (bk << 2) + (bi * 32768) + (i * 1024) in
                  let c4 = (bk << 7) + (bj * 32768) in
                  do
                    tmp ←
                        copy 32 (u.cells (bi ∷ bj ∷ bk ∷ i ∷ []) 32) (λ j. j) d (λ j. (i * 32) + j)
                    tmp ← add_multiples R 32 tmp (λ j. j) A (c3 + 0) pB (λ j. c4 + j)
                    tmp ← add_multiples R 32 tmp (λ j. j) A (c3 + 1) pB (λ j. (1 * 32) + c4 + j)
                    tmp ← add_multiples R 32 tmp (λ j. j) A (c3 + 2) pB (λ j. (2 * 32) + c4 + j)
                    tmp ← add_multiples R 32 tmp (λ j. j) A (c3 + 3) pB (λ j. (3 * 32) + c4 + j)
                    copy 32 d (λ j. (i * 32) + j) tmp (λ j. j))
                sum
          for_loop 32 0
              (λ i d.
                copy 32 d (λ j. (bj * 32) + (bi * 32768) + (i * 1024) + j) sum (λ j. (i * 32) + j))
              c)
        C

  pub mm1024-lem :
      (a b : ℕ → S) (C A B : List S)
      → length C ≡ 1048576
      → Holds 1048576 a A
      → Holds 1048576 b B
      → Ensures (Holds 1048576 (product R a b)) (mm1024 C A B)
  unfolding mm1024
  mm1024-lem a b C A B size hA hB =
      bind-Ensures
        (pack-rows R b B hB _ _ (u.cells [] 1048576) (λ bj k j. omega arith) (λ bj k j. omega arith)
          (u.length_cells _ _))
        λ pB whole.
          blocks-lem R a b C _ _ _ _ size
            (λ bi bj.
              zero-tile R a b bi bj _ (u.cells (bi ∷ bj ∷ []) 1024) (λ i j. omega arith)
                (u.length_cells _ _))
            (λ bi bj bk i t hi hj hk hr h.
              packed-copied-row R a b A hA whole bi bj bk i hi hj hk hr _ _ _ _ _ _ _ _
                (omega arith) (omega arith) (omega arith) (omega arith) (λ j. omega arith)
                (λ j. omega arith) (λ j. omega arith) (λ j. omega arith)
                (u.cells (bi ∷ bj ∷ bk ∷ i ∷ []) 32) t _ _ _ _ _ _ _ _ (u.length_cells _ _)
                (λ j. omega arith) (λ j. omega arith) (λ j. omega arith) (λ j. omega arith)
                (λ j. omega arith) (λ j. omega arith) (λ j. omega arith) (λ j. omega arith) h)
            (λ bi bj i j. omega arith) (λ bi bj i j. omega arith)
