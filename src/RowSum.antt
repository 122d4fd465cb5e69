-- ===== src/RowSum.antt =====
-- The row sums of a box filter in case_studies/opencv: box_filter_rowsum.cpp, and in
-- box_filter_rowsum_exp.cpp the program that its transformation ends with. A `uint8_t` and a
-- `uint16_t` is a number below 2 ^ 8 and 2 ^ 16; the sums wrap around.
pub mod Window
pub mod Reference
pub mod Transformed
pub mod Equivalence
use optitrust.Prelude.{ℕ, ◌+◌, ◌-◌, ◌*◌, ◌%◌, ◌^◌, Option, some, List, get_elem?}
use optitrust.Prelude.Options.{◌>>=◌}
use optitrust.Loops.{for_loop, write}
use optitrust.Matrix.{mindex2}

-- s += x, where s has 16 bits
abbrev pub add16 : ℕ → ℕ → ℕ
add16 s x = (s + x) % 2 ^ 16

-- s += x - y, where s has 16 bits and y at most 16
abbrev pub slide16 : ℕ → ℕ → ℕ → ℕ
slide16 s x y = (s + x + (2 ^ 16 - y)) % 2 ^ 16

-- The sizes w, n and cn are not negative, and `n + w - 1` is not either.
unfoldable pub row_sum : ℕ → List ℕ → List ℕ → ℕ → ℕ → Option (List ℕ)
row_sum w S D n cn =
    for_loop n 0
      (λ i. for_loop cn 0 λ c d. do
        s ←
            for_loop w i (λ k s. do x ← get_elem? S (mindex2 (n + w - 1) cn k c); some (add16 s x))
              0
        write d (mindex2 n cn i c) s)
      D
