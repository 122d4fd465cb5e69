-- ===== src/Matrix/Bounds.antt =====
-- Indices in range are below the size of the matrix, and two of them are never the same.
use optitrust.Prelude.{ℕ, ◌+◌, ◌*◌, ◌<◌, ◌≡◌, sym, ◌∙◌, arith, fields_lt, fields-injective}
use optitrust.Matrix.{mindex2, mindex3, mindex4, msize2, msize3, msize4}

pub mindex2-lt-msize2 : (n1 n2 i1 i2 : ℕ) → i1 < n1 → i2 < n2 → mindex2 n1 n2 i1 i2 < msize2 n1 n2
unfolding mindex2 msize2
mindex2-lt-msize2 n1 n2 i1 i2 h1 h2 = fields_lt i1 i2 n2 h2 n1 h1

-- An index of a matrix in three dimensions is one of a matrix of rows.
pub mindex3_rows :
    (n1 n2 n3 i1 i2 i3 : ℕ) → mindex3 n1 n2 n3 i1 i2 i3 ≡ mindex2 n1 n2 i1 i2 * n3 + i3
unfolding mindex3 mindex2
mindex3_rows n1 n2 n3 i1 i2 i3 = omega arith

pub mindex4_rows :
    (n1 n2 n3 n4 i1 i2 i3 i4 : ℕ)
    → mindex4 n1 n2 n3 n4 i1 i2 i3 i4 ≡ mindex3 n1 n2 n3 i1 i2 i3 * n4 + i4
unfolding mindex4 mindex3
mindex4_rows n1 n2 n3 n4 i1 i2 i3 i4 = omega arith

pub mindex3-lt-msize3 :
    (n1 n2 n3 i1 i2 i3 : ℕ)
    → i1 < n1
    → i2 < n2
    → i3 < n3
    → mindex3 n1 n2 n3 i1 i2 i3 < msize3 n1 n2 n3
unfolding msize3
mindex3-lt-msize3 n1 n2 n3 i1 i2 i3 h1 h2 h3 = rw (mindex3_rows n1 n2 n3 i1 i2 i3) (
    fields_lt (mindex2 n1 n2 i1 i2) i3 n3 h3 (n1 * n2)
      (unfold msize2 in mindex2-lt-msize2 n1 n2 i1 i2 h1 h2))

-- Every element of a matrix in four dimensions, with its indices in range, lies within the size that
-- MSIZE4 gives.
pub mindex4-lt-msize4 :
    (n1 n2 n3 n4 i1 i2 i3 i4 : ℕ)
    → i1 < n1
    → i2 < n2
    → i3 < n3
    → i4 < n4
    → mindex4 n1 n2 n3 n4 i1 i2 i3 i4 < msize4 n1 n2 n3 n4
unfolding msize4
mindex4-lt-msize4 n1 n2 n3 n4 i1 i2 i3 i4 h1 h2 h3 h4 = rw (mindex4_rows n1 n2 n3 n4 i1 i2 i3 i4) (
    fields_lt (mindex3 n1 n2 n3 i1 i2 i3) i4 n4 h4 (n1 * n2 * n3)
      (unfold msize3 in mindex3-lt-msize3 n1 n2 n3 i1 i2 i3 h1 h2 h3))

mindex2-injective :
    (n1 n2 i1 i2 j1 j2 : ℕ)
    → i2 < n2
    → j2 < n2
    → mindex2 n1 n2 i1 i2 ≡ mindex2 n1 n2 j1 j2
    → (i1 ≡ j1) × (i2 ≡ j2)
unfolding mindex2
mindex2-injective n1 n2 i1 i2 j1 j2 h h' e = fields-injective i1 i2 j1 j2 n2 h h' e

mindex3-injective :
    (n1 n2 n3 i1 i2 i3 j1 j2 j3 : ℕ)
    → i2 < n2
    → j2 < n2
    → i3 < n3
    → j3 < n3
    → mindex3 n1 n2 n3 i1 i2 i3 ≡ mindex3 n1 n2 n3 j1 j2 j3
    → (i1 ≡ j1) × (i2 ≡ j2) × (i3 ≡ j3)
mindex3-injective n1 n2 n3 i1 i2 i3 j1 j2 j3 h2 h2' h3 h3' e =
    let rows = sym (mindex3_rows n1 n2 n3 i1 i2 i3) ∙ e ∙ mindex3_rows n1 n2 n3 j1 j2 j3 in
    let (row, last) =
      fields-injective (mindex2 n1 n2 i1 i2) i3 (mindex2 n1 n2 j1 j2) j3 n3 h3 h3' rows in
    let (i, j) = mindex2-injective n1 n2 i1 i2 j1 j2 h2 h2' row in (i, j, last)

-- Two elements of a matrix in four dimensions, with their last three indices in range, that lie at one
-- place are the same element.
pub mindex4-injective :
    (n1 n2 n3 n4 i1 i2 i3 i4 j1 j2 j3 j4 : ℕ)
    → i2 < n2
    → j2 < n2
    → i3 < n3
    → j3 < n3
    → i4 < n4
    → j4 < n4
    → mindex4 n1 n2 n3 n4 i1 i2 i3 i4 ≡ mindex4 n1 n2 n3 n4 j1 j2 j3 j4
    → (i1 ≡ j1) × (i2 ≡ j2) × (i3 ≡ j3) × (i4 ≡ j4)
mindex4-injective n1 n2 n3 n4 i1 i2 i3 i4 j1 j2 j3 j4 h2 h2' h3 h3' h4 h4' e =
    let rows =
      sym (mindex4_rows n1 n2 n3 n4 i1 i2 i3 i4) ∙ e ∙ mindex4_rows n1 n2 n3 n4 j1 j2 j3 j4 in
    let (row, last) =
      fields-injective (mindex3 n1 n2 n3 i1 i2 i3) i4 (mindex3 n1 n2 n3 j1 j2 j3) j4 n4 h4 h4'
        rows in
    let (i, j, k) = mindex3-injective n1 n2 n3 i1 i2 i3 j1 j2 j3 h2 h2' h3 h3' row in
    (i, j, k, last)
