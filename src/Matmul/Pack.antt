-- ===== src/Matmul/Pack.antt =====
-- The loops that pack B by columns of blocks.
use optitrust.Prelude.{
  some, ◌∙◌, ℕ, ◌+◌, ◌*◌, ◌/◌, ◌%◌, ◌<◌, ◌≤◌, ◌≡◌, refl, List, arith, length, get_elem?, ap,
}
use optitrust.Loops.{for_loop}
use optitrust.Loops.Ensures.{Ensures}
use optitrust.Reals.{Reals}
use optitrust.Matmul.{copy, memcpy}
use optitrust.Matmul.Arrays.{
  Holds, contents, contents-Holds, copy-At, nest-At, start-At, end-At, in_order,
}

module _ {S : Type 0} (R : Reals S) (b : ℕ → S) where
  -- pB[32 * k + j], for the rows `k` from `first` on and the columns from `32 * bj` on
  abbrev pub slice : ℕ → ℕ → ℕ → S
  slice first bj q = b (1024 * (first + q / 32) + 32 * bj + q % 32)

  -- pB[32768 * bj + 32 * k + j]
  abbrev pub packed : ℕ → S
  packed q = b (1024 * (q % 32768 / 32) + 32 * (q / 32768) + q % 32)

  module _ (B : List S) (hB : Holds 1048576 b B) where
    source : (from from' : ℕ) → from < 1048576 → from ≡ from' → get_elem? B from ≡ some (b from')
    source from from' lt e = hB.elem from lt ∙ ap (λ (q : ℕ). some (b q)) e

    -- The loops over blocks of rows and the rows in them.
    pub pack-blocks :
        (to from : ℕ → ℕ → ℕ → ℕ → ℕ) (pB : List S)
        → ((bj bk k j : ℕ) → to bj bk k j ≡ 32768 * bj + 128 * bk + 32 * k + j)
        → ((bj bk k j : ℕ) → from bj bk k j ≡ 1024 * (4 * bk + k) + 32 * bj + j)
        → length pB ≡ 1048576
        → Ensures (Holds 1048576 packed) (
            for_loop 32 0
              (λ bj.
                for_loop 256 0 λ bk. for_loop 4 0 λ k d. copy 32 d (to bj bk k) B (from bj bk k))
              pB)
    pack-blocks to from pB to≡ from≡ size =
        let w = in_order 1048576 packed (contents R pB) in
        end-At w 1048576 (λ q lt. lt)
          (nest-At w (λ bj. 32768 * bj) _ _ refl refl
            (λ bj _ hj.
              nest-At w (λ bk. 32768 * bj + 128 * bk) _ _ (omega arith) (omega arith)
                λ bk _ hk.
                  nest-At w (λ k. 32768 * bj + 128 * bk + 32 * k) _ _ (omega arith) (omega arith)
                    λ k _ hi.
                      copy-At w B 32 (32768 * bj + 128 * bk + 32 * k) _ _ _
                        (λ j lt.
                          (let e = to≡ bj bk k j in
                            let f = from≡ bj bk k j in
                            (
                              omega (arith, e),
                              e,
                              source _ _ (omega (arith, f)) (omega (arith, e, f)),
                            )))
                        (omega arith))
            (start-At w (contents-Holds R 1048576 pB size)))

    -- The loops over the rows, which are not in blocks.
    pub pack-rows :
        (to from : ℕ → ℕ → ℕ → ℕ) (pB : List S)
        → ((bj k j : ℕ) → to bj k j ≡ 32768 * bj + 32 * k + j)
        → ((bj k j : ℕ) → from bj k j ≡ 1024 * k + 32 * bj + j)
        → length pB ≡ 1048576
        → Ensures
            (Holds 1048576 packed)
            (for_loop 32 0 (λ bj. for_loop 1024 0 λ k d. copy 32 d (to bj k) B (from bj k)) pB)
    pack-rows to from pB to≡ from≡ size =
        let w = in_order 1048576 packed (contents R pB) in
        end-At w 1048576 (λ q lt. lt)
          (nest-At w (λ bj. 32768 * bj) _ _ refl refl
            (λ bj _ hj.
              nest-At w (λ k. 32768 * bj + 32 * k) _ _ (omega arith) (omega arith)
                λ k _ hk.
                  copy-At w B 32 (32768 * bj + 32 * k) _ _ _
                    (λ j lt.
                      (let e = to≡ bj k j in
                        let f = from≡ bj k j in
                        (omega (arith, e), e, source _ _ (omega (arith, f)) (omega (arith, e, f)))))
                    (omega arith))
            (start-At w (contents-Holds R 1048576 pB size)))

    -- All rows of the columns from `32 * bj` on.
    pub pack-slice :
        (bj : ℕ) (pB : List S)
        → bj < 32
        → length pB ≡ 32768
        → Ensures (Holds 32768 (slice 0 bj)) (
            for_loop 256 0
              (λ bk.
                for_loop 4 0
                  λ k d. memcpy 32 d (128 * bk + 32 * k) B (1024 * (4 * bk + k) + 32 * bj))
              pB)
    pack-slice bj pB hj size =
        let w = in_order 32768 (slice 0 bj) (contents R pB) in
        end-At w 32768 (λ q lt. lt)
          (nest-At w (λ bk. 128 * bk) _ _ refl refl
            (λ bk _ hk.
              nest-At w (λ k. 128 * bk + 32 * k) _ _ (omega arith) (omega arith)
                λ k _ hi.
                  copy-At w B 32 (128 * bk + 32 * k) _ _ _
                    (λ j lt. (omega arith, refl, source _ _ (omega arith) (omega arith)))
                    (omega arith))
            (start-At w (contents-Holds R 32768 pB size)))

    -- Four rows of them, from `4 * bk` on.
    pub pack-part :
        (bj bk : ℕ) (pB : List S)
        → bj < 32
        → bk < 256
        → length pB ≡ 128
        → Ensures
            (Holds 128 (slice (4 * bk) bj))
            (for_loop 4 0 (λ k d. memcpy 32 d (32 * k) B (1024 * (4 * bk + k) + 32 * bj)) pB)
    pack-part bj bk pB hj hk size =
        let w = in_order 128 (slice (4 * bk) bj) (contents R pB) in
        end-At w 128 (λ q lt. lt)
          (nest-At w (λ k. 32 * k) _ _ refl refl
            (λ k _ hi.
              copy-At w B 32 (32 * k) _ _ _
                (λ j lt. (omega arith, refl, source _ _ (omega arith) (omega arith))) (omega arith))
            (start-At w (contents-Holds R 128 pB size)))

  -- A row of a packed block, read back.
  pub packed-column :
      {pB : List S}
      → Holds 1048576 packed pB
      → (bj n : ℕ) (q : ℕ → ℕ) → bj < 32
      → n < 1024
      → ((j : ℕ) → q j ≡ 32768 * bj + 32 * n + j)
      → (j : ℕ) → j < 32
      → get_elem? pB (q j) ≡ some (b (1024 * n + (32 * bj + j)))
  packed-column h bj n q hj hn q≡ j lt =
      let e : 1024 * (q j % 32768 / 32) + 32 * (q j / 32768) + q j % 32 ≡ 1024 * n + (32 * bj + j) =
        omega (arith, q≡ j) in
      h.elem (q j) (omega (arith, q≡ j)) ∙ ap (λ (i : ℕ). some (b i)) e

  pub slice-column :
      {m : ℕ} (first bj : ℕ) {pB : List S}
      → Holds m (slice first bj) pB
      → (n k : ℕ) (q : ℕ → ℕ) → 32 * k + 32 ≤ m
      → n ≡ first + k
      → ((j : ℕ) → q j ≡ 32 * k + j)
      → (j : ℕ) → j < 32
      → get_elem? pB (q j) ≡ some (b (1024 * n + (32 * bj + j)))
  slice-column first bj h n k q room at q≡ j lt =
      let e : 1024 * (first + q j / 32) + 32 * bj + q j % 32 ≡ 1024 * n + (32 * bj + j) =
        omega (arith, q≡ j, at) in
      h.elem (q j) (omega (arith, q≡ j)) ∙ ap (λ (i : ℕ). some (b i)) e
