-- ===== src/Tests/Grid.antt =====
-- A grid of 2 by 3 by 4 cells.
use optitrust.Prelude.{ℕ, ◌+◌, ◌*◌, ◌-◌, ◌%◌, ◌<◌, ◌≡◌, refl, some, arith, get_elem?, ◌∷◌, []}
use optitrust.Prelude.Int.{pos, negsuc, ◌+ℤ◌, ◌%ℤ◌}
use optitrust.Matrix.{mindex3}
use optitrust.Grid.{Grid, Coord, wrap, nb_cells, cell_of_coord, coord_of_cell, indices_of_corners}
use optitrust.Grid.Coords.{
  IsGrid, OnGrid, coord_of_cell-cell_of_coord, cell_of_coord-coord_of_cell, wrap_lem,
}
use optitrust.Grid.Corners.{corner, cell_at, indices_of_corners-nb_cells, corner-injective}

abbrev pub small_grid : Grid
small_grid = record { grid_x = 2; grid_y = 3; grid_z = 4 }

abbrev some_coord : Coord
some_coord = record { i_x = 1; i_y = 2; i_z = 3 }

pub small_grid-IsGrid : IsGrid small_grid
small_grid-IsGrid = record { pos_x = omega arith; pos_y = omega arith; pos_z = omega arith }

some_coord-OnGrid : OnGrid small_grid some_coord
some_coord-OnGrid = record { in_x = omega arith; in_y = omega arith; in_z = omega arith }

pub small_grid-size : nb_cells small_grid ≡ 24
unfolding nb_cells
small_grid-size = refl

pub in_small_grid : 23 < nb_cells small_grid
in_small_grid = rw (small_grid-size) (omega arith)

wrap_lem_example : (wrap 4 (pos 6) ≡ pos (6 % 4)) × (wrap 4 (negsuc 6) ≡ pos (4 - 1 - 6 % 4))
wrap_lem_example = wrap_lem 6 4 (omega arith)

coord_of_cell-cell_of_coord_example :
    coord_of_cell small_grid (cell_of_coord small_grid some_coord.i_x some_coord.i_y some_coord.i_z)
    ≡ some_coord
coord_of_cell-cell_of_coord_example =
    coord_of_cell-cell_of_coord small_grid some_coord some_coord-OnGrid

cell_of_coord-coord_of_cell_example :
    OnGrid small_grid (coord_of_cell small_grid 23)
    × (cell_of_coord small_grid
          (coord_of_cell small_grid 23).i_x
          (coord_of_cell small_grid 23).i_y
          (coord_of_cell small_grid 23).i_z
        ≡ 23)
cell_of_coord-coord_of_cell_example =
    cell_of_coord-coord_of_cell small_grid 23 small_grid-IsGrid in_small_grid

indices_of_corners-nb_cells_example :
    (get_elem? (indices_of_corners small_grid 23) (4 * 1 + 2 * 0 + 1)
      ≡ some (cell_at small_grid (corner small_grid 23 1 0 1)))
    × (cell_at small_grid (corner small_grid 23 1 0 1) < nb_cells small_grid)
indices_of_corners-nb_cells_example =
    indices_of_corners-nb_cells small_grid 23 small_grid-IsGrid in_small_grid 1 0 1 (omega arith)
      (omega arith) (omega arith)

-- The last cell touches the whole torus.
corners_of_last : indices_of_corners small_grid 23 ≡ 23 ∷ 20 ∷ 15 ∷ 12 ∷ 11 ∷ 8 ∷ 3 ∷ 0 ∷ []
unfolding indices_of_corners cell_of_coord coord_of_cell wrap mindex3 ◌+ℤ◌ ◌%ℤ◌
corners_of_last = refl

corner-injective_example : (◌≡◌ {A = ℕ} 1 1) × (◌≡◌ {A = ℕ} 0 0) × (◌≡◌ {A = ℕ} 1 1)
corner-injective_example =
    corner-injective small_grid 23 1 0 1 1 0 1 (omega arith) (omega arith) (omega arith)
      in_small_grid (omega arith) (omega arith) (omega arith) (omega arith) (omega arith)
      (omega arith) refl
