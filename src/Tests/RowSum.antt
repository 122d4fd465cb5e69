-- ===== src/Tests/RowSum.antt =====
-- Rows of three pixels with two channels, and what their filters give.
use optitrust.Prelude.{
  ℕ, ◌+◌, ◌*◌, ◌%◌, ◌^◌, ◌<◌, ◌≡◌, refl, some, List, [], ◌∷◌, length, get_elem?, arith,
}
use optitrust.RowSum.{row_sum}
use optitrust.RowSum.Transformed
use optitrust.RowSum.Window.{window}
use optitrust.RowSum.Equivalence.{transformed-row_sum, row_sum-window}

abbrev source : List ℕ
source = 255 ∷ 1 ∷ 2 ∷ 3 ∷ 4 ∷ 250 ∷ 6 ∷ 7 ∷ []

abbrev destination : List ℕ
destination = 9 ∷ 9 ∷ 9 ∷ 9 ∷ 9 ∷ 9 ∷ []

row_sum_small : row_sum 2 source destination 3 2 ≡ some (257 ∷ 4 ∷ 6 ∷ 253 ∷ 10 ∷ 257 ∷ [])
unfolding row_sum optitrust.Loops.for_loop optitrust.Matrix.mindex2 optitrust.Loops.write
row_sum_small = refl

transformed_small :
    Transformed.row_sum 2 source destination 3 2 ≡ some (257 ∷ 4 ∷ 6 ∷ 253 ∷ 10 ∷ 257 ∷ [])
unfolding Transformed.row_sum Transformed.channels optitrust.Loops.for_loop
    optitrust.Loops.stride_loop optitrust.Loops.write
transformed_small = refl

transformed-row_sum_example :
    Transformed.row_sum 2 source destination 3 2 ≡ row_sum 2 source destination 3 2
transformed-row_sum_example =
    transformed-row_sum 2 3 2 source destination (omega arith)
      (
        omega arith,
        (
          omega arith,
          (
            omega arith,
            (omega arith, (omega arith, (omega arith, (omega arith, (omega arith, tt))))),
          ),
        ),
      )
      refl refl

row_sum-window_example :
    (D' : List ℕ) × (row_sum 2 source destination 3 2 ≡ some D')
    × (length D' ≡ 3 * 2)
    × ((i c : ℕ)
        → i < 3
        → c < 2
        → get_elem? D' (i * 2 + c) ≡ some (window source 2 2 (i * 2 + c) % 2 ^ 16))
row_sum-window_example = row_sum-window 2 3 2 source destination refl refl
