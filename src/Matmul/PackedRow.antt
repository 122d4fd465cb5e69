-- ===== src/Matmul/PackedRow.antt =====
-- The rows of a block, computed from the packed matrix.
use optitrust.Prelude.{ℕ, ◌+◌, ◌*◌, ◌<◌, ◌≤◌, ◌≡◌, ◌∙◌, List, arith, length}
use optitrust.Prelude.Options.{◌>>=◌}
use optitrust.Loops.Ensures.{Ensures}
use optitrust.Reals.{Reals}
use optitrust.Matmul.{copy, add_multiples}
use optitrust.Matmul.Arrays.{At, Holds}
use optitrust.Matmul.Pack.{packed, packed-column, slice, slice-column}
use optitrust.Matmul.Row.{copied-row, row-in-place}
use optitrust.Matmul.Blocks.{rows}

module _ {S : Type 0} (R : Reals S) (a b : ℕ → S) (A : List S) (hA : Holds 1048576 a A) where
  module _ {pB : List S} (whole : Holds 1048576 (packed R b) pB) (bi bj bk i : ℕ) (hbi : bi < 32)
      (hbj : bj < 32) (hbk : bk < 256) (hi : i < 32) (p0 p1 p2 p3 : ℕ) (q0 q1 q2 q3 : ℕ → ℕ)
      (p0≡ : p0 ≡ 1024 * (32 * bi + i) + 4 * bk + 0) (p1≡ : p1 ≡ 1024 * (32 * bi + i) + 4 * bk + 1)
      (p2≡ : p2 ≡ 1024 * (32 * bi + i) + 4 * bk + 2) (p3≡ : p3 ≡ 1024 * (32 * bi + i) + 4 * bk + 3)
      (q0≡ : (j : ℕ) → q0 j ≡ 32768 * bj + 128 * bk + 32 * 0 + j)
      (q1≡ : (j : ℕ) → q1 j ≡ 32768 * bj + 128 * bk + 32 * 1 + j)
      (q2≡ : (j : ℕ) → q2 j ≡ 32768 * bj + 128 * bk + 32 * 2 + j)
      (q3≡ : (j : ℕ) → q3 j ≡ 32768 * bj + 128 * bk + 32 * 3 + j) where
    pub packed-copied-row :
        (u d : List S) (t0 s0 t1 t2 t3 t4 s5 t5 : ℕ → ℕ)
        → length u ≡ 32
        → ((j : ℕ) → t0 j ≡ j)
        → ((j : ℕ) → s0 j ≡ 32 * i + j)
        → ((j : ℕ) → t1 j ≡ j)
        → ((j : ℕ) → t2 j ≡ j)
        → ((j : ℕ) → t3 j ≡ j)
        → ((j : ℕ) → t4 j ≡ j)
        → ((j : ℕ) → s5 j ≡ 32 * i + j)
        → ((j : ℕ) → t5 j ≡ j)
        → At (rows R a b bi bj bk) (32 * i) d
        → Ensures (At (rows R a b bi bj bk) (32 * (i + 1))) (do
          s ← copy 32 u t0 d s0
          s ← add_multiples R 32 s t1 A p0 pB q0
          s ← add_multiples R 32 s t2 A p1 pB q1
          s ← add_multiples R 32 s t3 A p2 pB q2
          s ← add_multiples R 32 s t4 A p3 pB q3
          copy 32 d s5 s t5)
    packed-copied-row =
        copied-row R a b A hA bi bj bk i hi hbi hbk p0 p1 p2 p3 (omega (arith, p0≡))
          (omega (arith, p1≡)) (omega (arith, p2≡)) (omega (arith, p3≡)) pB q0 q1 q2 q3
          (packed-column R b whole bj (4 * bk + 0) q0 hbj (omega arith) (λ j. q0≡ j ∙ omega arith))
          (packed-column R b whole bj (4 * bk + 1) q1 hbj (omega arith) (λ j. q1≡ j ∙ omega arith))
          (packed-column R b whole bj (4 * bk + 2) q2 hbj (omega arith) (λ j. q2≡ j ∙ omega arith))
          (packed-column R b whole bj (4 * bk + 3) q3 hbj (omega arith) (λ j. q3≡ j ∙ omega arith))

    pub packed-row-in-place :
        (d : List S) (t0 t1 t2 t3 : ℕ → ℕ)
        → ((j : ℕ) → t0 j ≡ 32 * i + j)
        → ((j : ℕ) → t1 j ≡ 32 * i + j)
        → ((j : ℕ) → t2 j ≡ 32 * i + j)
        → ((j : ℕ) → t3 j ≡ 32 * i + j)
        → At (rows R a b bi bj bk) (32 * i) d
        → Ensures (At (rows R a b bi bj bk) (32 * (i + 1))) (do
          s ← add_multiples R 32 d t0 A p0 pB q0
          s ← add_multiples R 32 s t1 A p1 pB q1
          s ← add_multiples R 32 s t2 A p2 pB q2
          add_multiples R 32 s t3 A p3 pB q3)
    packed-row-in-place =
        row-in-place R a b A hA bi bj bk i hi hbi hbk p0 p1 p2 p3 (omega (arith, p0≡))
          (omega (arith, p1≡)) (omega (arith, p2≡)) (omega (arith, p3≡)) pB q0 q1 q2 q3
          (packed-column R b whole bj (4 * bk + 0) q0 hbj (omega arith) (λ j. q0≡ j ∙ omega arith))
          (packed-column R b whole bj (4 * bk + 1) q1 hbj (omega arith) (λ j. q1≡ j ∙ omega arith))
          (packed-column R b whole bj (4 * bk + 2) q2 hbj (omega arith) (λ j. q2≡ j ∙ omega arith))
          (packed-column R b whole bj (4 * bk + 3) q3 hbj (omega arith) (λ j. q3≡ j ∙ omega arith))

  -- The same from a part of the packed matrix: its row `off` is the row `4 * bk` of B.
  module _ {m : ℕ} (first off bi bj bk i : ℕ) {pB : List S}
      (whole : Holds m (slice R b first bj) pB) (room : 32 * off + 128 ≤ m)
      (at : 4 * bk ≡ first + off) (hbi : bi < 32) (hbk : bk < 256) (hi : i < 32) (p0 p1 p2 p3 : ℕ)
      (q0 q1 q2 q3 : ℕ → ℕ) (p0≡ : p0 ≡ 1024 * (32 * bi + i) + 4 * bk + 0)
      (p1≡ : p1 ≡ 1024 * (32 * bi + i) + 4 * bk + 1) (p2≡ : p2 ≡ 1024 * (32 * bi + i) + 4 * bk + 2)
      (p3≡ : p3 ≡ 1024 * (32 * bi + i) + 4 * bk + 3) (q0≡ : (j : ℕ) → q0 j ≡ 32 * (off + 0) + j)
      (q1≡ : (j : ℕ) → q1 j ≡ 32 * (off + 1) + j) (q2≡ : (j : ℕ) → q2 j ≡ 32 * (off + 2) + j)
      (q3≡ : (j : ℕ) → q3 j ≡ 32 * (off + 3) + j) where
    pub sliced-copied-row :
        (u d : List S) (t0 s0 t1 t2 t3 t4 s5 t5 : ℕ → ℕ)
        → length u ≡ 32
        → ((j : ℕ) → t0 j ≡ j)
        → ((j : ℕ) → s0 j ≡ 32 * i + j)
        → ((j : ℕ) → t1 j ≡ j)
        → ((j : ℕ) → t2 j ≡ j)
        → ((j : ℕ) → t3 j ≡ j)
        → ((j : ℕ) → t4 j ≡ j)
        → ((j : ℕ) → s5 j ≡ 32 * i + j)
        → ((j : ℕ) → t5 j ≡ j)
        → At (rows R a b bi bj bk) (32 * i) d
        → Ensures (At (rows R a b bi bj bk) (32 * (i + 1))) (do
          s ← copy 32 u t0 d s0
          s ← add_multiples R 32 s t1 A p0 pB q0
          s ← add_multiples R 32 s t2 A p1 pB q1
          s ← add_multiples R 32 s t3 A p2 pB q2
          s ← add_multiples R 32 s t4 A p3 pB q3
          copy 32 d s5 s t5)
    sliced-copied-row =
        copied-row R a b A hA bi bj bk i hi hbi hbk p0 p1 p2 p3 (omega (arith, p0≡))
          (omega (arith, p1≡)) (omega (arith, p2≡)) (omega (arith, p3≡)) pB q0 q1 q2 q3
          (slice-column R b first bj whole (4 * bk + 0) (off + 0) q0 (omega arith)
            (omega (arith, at)) q0≡)
          (slice-column R b first bj whole (4 * bk + 1) (off + 1) q1 (omega arith)
            (omega (arith, at)) q1≡)
          (slice-column R b first bj whole (4 * bk + 2) (off + 2) q2 (omega arith)
            (omega (arith, at)) q2≡)
          (slice-column R b first bj whole (4 * bk + 3) (off + 3) q3 (omega arith)
            (omega (arith, at)) q3≡)
