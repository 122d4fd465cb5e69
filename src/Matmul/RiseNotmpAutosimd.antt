-- ===== src/Matmul/RiseNotmpAutosimd.antt =====
-- case_studies/matmul/matmul_rise_notmp_autosimd.c
use optitrust.Prelude.{ℕ, ◌+◌, ◌*◌, ◌≡◌, Option, List, [], ◌∷◌, arith, length}
use optitrust.Prelude.Options.{◌>>=◌}
use optitrust.Loops.{for_loop}
use optitrust.Loops.Ensures.{Ensures, bind-Ensures}
use optitrust.Reals.{Reals, zero_real}
use optitrust.Matmul.{Uninitialised, copy, fill, add_multiples}
use optitrust.Matmul.Arrays.{Holds}
use optitrust.Matmul.Pack.{pack-rows}
use optitrust.Matmul.Tile.{zero-tile, product}
use optitrust.Matmul.PackedRow.{packed-row-in-place}
use optitrust.Matmul.Blocks.{blocks-lem}

module _ {S : Type 0} (R : Reals S) (u : Uninitialised S) where
  unfoldable pub parallel : List S → List S → List S → Option (List S)
  parallel output x0 x1 = do
    t1 ←
        for_loop 32 0
          (λ i0.
            for_loop 1024 0 λ i1 d.
              copy 32 d (λ i3. i3 + 32 * i1 + 32768 * i0) x1 (λ i3. i3 + 32 * i0 + 1024 * i1))
          (u.cells [] 1048576)
    for_loop 32 0
        (λ i4. for_loop 32 0 λ i5 c. do
          t2 ←
              for_loop 32 0 (λ i6 d. fill 32 d (λ i. i + 32 * i6) (zero_real R))
                (u.cells (i4 ∷ i5 ∷ []) 1024)
          t2 ←
              for_loop 256 0
                (λ i7. for_loop 32 0 λ i8 d. do
                  d ←
                      add_multiples R 32 d (λ i11. i11 + 32 * i8) x0
                        (4 * i7 + 1024 * i8 + 32768 * i4) t1 (λ i11. i11 + 128 * i7 + 32768 * i5)
                  d ←
                      add_multiples R 32 d (λ i11. i11 + 32 * i8) x0
                        (1 + 4 * i7 + 1024 * i8 + 32768 * i4) t1
                        (λ i11. 32 + i11 + 128 * i7 + 32768 * i5)
                  d ←
                      add_multiples R 32 d (λ i11. i11 + 32 * i8) x0
                        (2 + 4 * i7 + 1024 * i8 + 32768 * i4) t1
                        (λ i11. 64 + i11 + 128 * i7 + 32768 * i5)
                  add_multiples R 32 d (λ i11. i11 + 32 * i8) x0
                      (3 + 4 * i7 + 1024 * i8 + 32768 * i4) t1
                      (λ i11. 96 + i11 + 128 * i7 + 32768 * i5))
                t2
          for_loop 32 0
              (λ i13 d.
                copy 32 d (λ i14. i14 + 32 * i5 + 1024 * i13 + 32768 * i4) t2
                  (λ i14. i14 + 32 * i13))
              c)
        output

  unfoldable pub mm1024 : List S → List S → List S → Option (List S)
  mm1024 C A B = parallel C A B

  pub mm1024-lem :
      (a b : ℕ → S) (C A B : List S)
      → length C ≡ 1048576
      → Holds 1048576 a A
      → Holds 1048576 b B
      → Ensures (Holds 1048576 (product R a b)) (mm1024 C A B)
  unfolding mm1024 parallel
  mm1024-lem a b C A B size hA hB =
      bind-Ensures
        (pack-rows R b B hB _ _ (u.cells [] 1048576) (λ bj k j. omega arith) (λ bj k j. omega arith)
          (u.length_cells _ _))
        λ pB whole.
          blocks-lem R a b C _ _ _ _ size
            (λ bi bj.
              zero-tile R a b bi bj _ (u.cells (bi ∷ bj ∷ []) 1024) (λ i j. omega arith)
                (u.length_cells _ _))
            (λ bi bj bk i t hi hj hk hr h.
              packed-row-in-place R a b A hA whole bi bj bk i hi hj hk hr _ _ _ _ _ _ _ _
                (omega arith) (omega arith) (omega arith) (omega arith) (λ j. omega arith)
                (λ j. omega arith) (λ j. omega arith) (λ j. omega arith) t _ _ _ _
                (λ j. omega arith) (λ j. omega arith) (λ j. omega arith) (λ j. omega arith) h)
            (λ bi bj i j. omega arith) (λ bi bj i j. omega arith)
