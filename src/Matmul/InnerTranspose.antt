-- ===== src/Matmul/InnerTranspose.antt =====
-- case_studies/matmul/matmul_opt_inner_transpose.c
use optitrust.Prelude.{ℕ, ◌+◌, ◌*◌, ◌<◌, ◌≡◌, Option, some, List, [], ◌∷◌, arith, length}
use optitrust.Prelude.Options.{◌>>=◌}
use optitrust.Loops.{for_loop}
use optitrust.Loops.Ensures.{Ensures, bind-Ensures, for_loop-Ensures, yields}
use optitrust.Reals.{Reals}
use optitrust.Matmul.{Uninitialised, Work, memcpy, clear, add_multiples}
use optitrust.Matmul.Arrays.{Holds, At, contents}
use optitrust.Matmul.Pack.{pack-slice}
use optitrust.Matmul.Tile.{clear-tile, product}
use optitrust.Matmul.PackedRow.{sliced-copied-row}
use optitrust.Matmul.Blocks.{blocks, tile-lem, store-tile, product-lem}

module _ {S : Type 0} (R : Reals S) (u : Uninitialised S) where
  -- The block of C in the rows from `32 * bi` on and the columns from `32 * bj` on.
  unfoldable pub block : List S → List S → ℕ → ℕ → Work S → Option (Work S)
  block A B bi bj w = do
    pB ←
        for_loop 256 0
          (λ bk.
            for_loop 4 0 λ k d. memcpy 32 d (128 * bk + 32 * k) B (1024 * (4 * bk + k) + 32 * bj))
          w.packed
    sum ← clear R 1024 w.sum
    sum ←
        for_loop 256 0
          (λ bk. for_loop 32 0 λ i d. do
            tmp ← memcpy 32 (u.cells (bi ∷ bj ∷ bk ∷ i ∷ []) 32) 0 d (32 * i)
            tmp ←
                add_multiples R 32 tmp (λ j. j) A (1024 * (32 * bi + i) + 4 * bk + 0) pB
                  (λ j. 128 * bk + 32 * 0 + j)
            tmp ←
                add_multiples R 32 tmp (λ j. j) A (1024 * (32 * bi + i) + 4 * bk + 1) pB
                  (λ j. 128 * bk + 32 * 1 + j)
            tmp ←
                add_multiples R 32 tmp (λ j. j) A (1024 * (32 * bi + i) + 4 * bk + 2) pB
                  (λ j. 128 * bk + 32 * 2 + j)
            tmp ←
                add_multiples R 32 tmp (λ j. j) A (1024 * (32 * bi + i) + 4 * bk + 3) pB
                  (λ j. 128 * bk + 32 * 3 + j)
            memcpy 32 d (32 * i) tmp 0)
          sum
    c ← for_loop 32 0 (λ i d. memcpy 32 d (1024 * (32 * bi + i) + 32 * bj) sum (32 * i)) w.out
    some (record { packed = pB; sum = sum; out = c })

  unfoldable pub mm1024 : List S → List S → List S → Option (List S)
  mm1024 C A B =
      for_loop 32 0
        (λ bi c. do
          w ←
              for_loop 32 0 (block A B bi)
                (record { packed = u.cells (bi ∷ []) 32768; sum = u.cells (bi ∷ []) 1024; out = c })
          some w.out)
        C

  -- What the threads keep: their buffers and the blocks of C that are written.
  abbrev Kept : (ℕ → S) → (ℕ → S) → (ℕ → S) → ℕ → ℕ → Work S → Type 0
  Kept a b old bi bj w =
      (length w.packed ≡ 32768)
      × (length w.sum ≡ 1024)
      × At (blocks R a b old) (32768 * bi + 1024 * bj) w.out

  block-lem :
      (a b old : ℕ → S) (A B : List S)
      → Holds 1048576 a A
      → Holds 1048576 b B
      → (bi bj : ℕ) (w : Work S) → bi < 32
      → bj < 32
      → Kept a b old bi bj w
      → Ensures (Kept a b old bi (bj + 1)) (block A B bi bj w)
  unfolding block
  block-lem a b old A B hA hB bi bj w hi hj (sp, ss, written) =
      bind-Ensures (pack-slice R b B hB bj w.packed hj sp) λ pB whole.
        bind-Ensures (clear-tile R a b bi bj w.sum ss) λ _ zero.
          bind-Ensures
            (tile-lem R a b bi bj
              (λ bk i t hk hr h.
                sliced-copied-row R a b A hA 0 (4 * bk) bi bj bk i whole (omega arith) (omega arith)
                  hi hk hr _ _ _ _ _ _ _ _ (omega arith) (omega arith) (omega arith) (omega arith)
                  (λ j. omega arith) (λ j. omega arith) (λ j. omega arith) (λ j. omega arith)
                  (u.cells (bi ∷ bj ∷ bk ∷ i ∷ []) 32) t _ _ _ _ _ _ _ _ (u.length_cells _ _)
                  (λ j. omega arith) (λ j. omega arith) (λ j. omega arith) (λ j. omega arith)
                  (λ j. omega arith) (λ j. omega arith) (λ j. omega arith) (λ j. omega arith) h)
              zero)
            λ sum done.
              bind-Ensures
                (store-tile R a b old bi bj _ _ sum hi hj (λ i j. omega arith) (λ i j. omega arith)
                  done written)
                λ c h. yields (whole.size, done.size, h)

  pub mm1024-lem :
      (a b : ℕ → S) (C A B : List S)
      → length C ≡ 1048576
      → Holds 1048576 a A
      → Holds 1048576 b B
      → Ensures (Holds 1048576 (product R a b)) (mm1024 C A B)
  unfolding mm1024
  mm1024-lem a b C A B size hA hB = product-lem R a b C size λ bi c hi written.
      bind-Ensures
        (for_loop-Ensures (λ bj w. Kept a b (contents R C) bi bj w)
          (λ bj w hj inv. block-lem a b (contents R C) A B hA hB bi bj w hi hj inv) _
          (
            u.length_cells _ _,
            u.length_cells _ _,
            (let e : 32768 * bi + 1024 * 0 ≡ 32768 * bi = omega arith in rw e written),
          ))
        λ w inv.
          yields (let e : 32768 * (bi + 1) ≡ 32768 * bi + 1024 * 32 = omega arith in rw e inv.2)
