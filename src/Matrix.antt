-- ===== src/Matrix.antt =====
-- The index functions of include/optitrust_common.h for matrices laid out row by row. The products
-- are those of C as long as they fit an `int`, or a `size_t` for the sizes.
pub mod Bounds
use optitrust.Prelude.{ℕ, ◌+◌, ◌*◌}

pub mindex0 : ℕ
mindex0 = 0

pub mindex1 : ℕ → ℕ → ℕ
mindex1 n1 i1 = i1

unfoldable pub mindex2 : ℕ → ℕ → ℕ → ℕ → ℕ
mindex2 n1 n2 i1 i2 = i1 * n2 + i2

unfoldable pub mindex3 : ℕ → ℕ → ℕ → ℕ → ℕ → ℕ → ℕ
mindex3 n1 n2 n3 i1 i2 i3 = i1 * n2 * n3 + i2 * n3 + i3

pub mindex4 : ℕ → ℕ → ℕ → ℕ → ℕ → ℕ → ℕ → ℕ → ℕ
mindex4 n1 n2 n3 n4 i1 i2 i3 i4 = i1 * n2 * n3 * n4 + i2 * n3 * n4 + i3 * n4 + i4

pub msize0 : ℕ
msize0 = 1

pub msize1 : ℕ → ℕ
msize1 n1 = n1

pub msize2 : ℕ → ℕ → ℕ
msize2 n1 n2 = n1 * n2

unfoldable pub msize3 : ℕ → ℕ → ℕ → ℕ
msize3 n1 n2 n3 = n1 * n2 * n3

pub msize4 : ℕ → ℕ → ℕ → ℕ → ℕ
msize4 n1 n2 n3 n4 = n1 * n2 * n3 * n4
