-- ===== src/Grid.antt =====
-- The grid of case_studies/pic/simulations/pic_demo.c: cells are numbered row by row, and the grid is
-- a torus. The globals gridX, gridY and gridZ are fields of a record; the products that number the
-- cells are those of C as long as the number of cells is an `int`.
pub mod Coords
pub mod Corners
use optitrust.Prelude.{ℕ, ◌+◌, ◌*◌, ◌/◌, ◌%◌, List, [], ◌∷◌}
use optitrust.Prelude.Int.{ℤ, pos, pos_part, ◌+ℤ◌, ◌%ℤ◌}
use optitrust.Matrix.{mindex3}

pub record Grid : Type 0 where
  pub grid_x : ℕ
  pub grid_y : ℕ
  pub grid_z : ℕ

pub record Coord : Type 0 where
  pub i_x : ℕ
  pub i_y : ℕ
  pub i_z : ℕ

unfoldable pub wrap : ℕ → ℤ → ℤ
unfolding ◌+ℤ◌ ◌%ℤ◌
wrap grid_size a = (a %ℤ grid_size +ℤ pos grid_size) %ℤ grid_size

module _ (g : Grid) where
  -- `nbCells`, set in `computeConstants`
  unfoldable pub nb_cells : ℕ
  nb_cells = g.grid_x * g.grid_y * g.grid_z

  unfoldable pub cell_of_coord : ℕ → ℕ → ℕ → ℕ
  unfolding mindex3
  cell_of_coord i j k = mindex3 g.grid_x g.grid_y g.grid_z i j k

  unfoldable pub coord_of_cell : ℕ → Coord
  coord_of_cell id_cell =
      let i_z : ℕ = id_cell % g.grid_z in
      let i_xy : ℕ = id_cell / g.grid_z in
      let i_y : ℕ = i_xy % g.grid_y in
      let i_x : ℕ = i_xy / g.grid_y in record { i_x = i_x; i_y = i_y; i_z = i_z }

  -- The arguments are not negative, and so neither are the results.
  unfoldable pub indices_of_corners : ℕ → List ℕ
  indices_of_corners id_cell =
      let coord : Coord = coord_of_cell id_cell in
      let x : ℕ = coord.i_x in
      let y : ℕ = coord.i_y in
      let z : ℕ = coord.i_z in
      let x2 : ℕ = pos_part (wrap g.grid_x (pos (x + 1))) in
      let y2 : ℕ = pos_part (wrap g.grid_y (pos (y + 1))) in
      let z2 : ℕ = pos_part (wrap g.grid_z (pos (z + 1))) in
      cell_of_coord x y z
      ∷ cell_of_coord x y z2
      ∷ cell_of_coord x y2 z
      ∷ cell_of_coord x y2 z2
      ∷ cell_of_coord x2 y z
      ∷ cell_of_coord x2 y z2
      ∷ cell_of_coord x2 y2 z
      ∷ cell_of_coord x2 y2 z2
      ∷ []
