-- ===== src/Tests/Matrix.antt =====
-- Index functions at concrete sizes.
use optitrust.Prelude.{ℕ, ◌≡◌, refl, ◌<◌, arith}
use optitrust.Matrix.{mindex4, msize4}
use optitrust.Matrix.Bounds.{mindex4-lt-msize4, mindex4-injective}

mindex4-lt-msize4_example : mindex4 2 3 4 5 1 2 3 4 < msize4 2 3 4 5
mindex4-lt-msize4_example =
    mindex4-lt-msize4 2 3 4 5 1 2 3 4 (omega arith) (omega arith) (omega arith) (omega arith)

mindex4-injective_example :
    (◌≡◌ {A = ℕ} 1 1) × (◌≡◌ {A = ℕ} 2 2) × (◌≡◌ {A = ℕ} 0 0) × (◌≡◌ {A = ℕ} 4 4)
mindex4-injective_example =
    mindex4-injective 2 3 4 5 1 2 0 4 1 2 0 4 (omega arith) (omega arith) (omega arith)
      (omega arith) (omega arith) (omega arith) refl
