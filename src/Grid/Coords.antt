-- ===== src/Grid/Coords.antt =====
-- Numbering the cells is a bijection between coordinates on the grid and cell numbers.
use native.Mathlib.Nat.{
  mod-lt, div-add-mod', mod-eq_of_lt, add-mod_right, mod-mod, mod_self, suc-mod,
}
use optitrust.Prelude.{
  ℕ, suc, ◌+◌, ◌-◌, ◌*◌, ◌/◌, ◌%◌, ◌<◌, ◌≡◌, refl, ap, ◌∙◌, ◌⊎◌, inl, inr, dec_lt, arith,
  div_fields, mod_fields, div_lt,
}
use optitrust.Prelude.Int.{pos, negsuc, sub_ℕ, ◌%ℤ◌, ◌+ℤ◌}
use optitrust.Matrix.{msize3}
use optitrust.Matrix.Bounds.{mindex3-lt-msize3}
use optitrust.Grid.{Grid, Coord, wrap, nb_cells, cell_of_coord, coord_of_cell}

pub record IsGrid (g : Grid) : Type 0 where
  pub pos_x : 0 < g.grid_x
  pub pos_y : 0 < g.grid_y
  pub pos_z : 0 < g.grid_z

pub record OnGrid (g : Grid) (c : Coord) : Type 0 where
  pub in_x : c.i_x < g.grid_x
  pub in_y : c.i_y < g.grid_y
  pub in_z : c.i_z < g.grid_z

-- Coordinates on the grid have a cell number below the number of cells.
pub cell_of_coord-lt :
    (g : Grid) (c : Coord) → OnGrid g c → cell_of_coord g c.i_x c.i_y c.i_z < nb_cells g
unfolding cell_of_coord nb_cells msize3
cell_of_coord-lt g c on =
    unfold msize3 in
    mindex3-lt-msize3 g.grid_x g.grid_y g.grid_z c.i_x c.i_y c.i_z on.in_x on.in_y on.in_z

cell_of_coord_rows :
    (g : Grid) (i j k : ℕ) → cell_of_coord g i j k ≡ (i * g.grid_y + j) * g.grid_z + k
unfolding cell_of_coord
cell_of_coord_rows g i j k = omega arith

-- `coordOfCell` gives back the coordinates on the grid that `cellOfCoord` was called with.
pub coord_of_cell-cell_of_coord :
    (g : Grid) (c : Coord) → OnGrid g c → coord_of_cell g (cell_of_coord g c.i_x c.i_y c.i_z) ≡ c
unfolding coord_of_cell
coord_of_cell-cell_of_coord g c on =
    let row : ℕ = c.i_x * g.grid_y + c.i_y in
    let last = mod_fields row c.i_z g.grid_z on.in_z in
    let rest = div_fields row c.i_z g.grid_z on.in_z in
    rw
      (
        cell_of_coord_rows g c.i_x c.i_y c.i_z,
        last,
        rest,
        mod_fields c.i_x c.i_y g.grid_y on.in_y,
        div_fields c.i_x c.i_y g.grid_y on.in_y,
      )
      refl

-- On a grid with a cell, every cell number has coordinates on the grid, and `cellOfCoord` gives the
-- number back.
pub cell_of_coord-coord_of_cell :
    (g : Grid) (id_cell : ℕ)
    → IsGrid g
    → id_cell < nb_cells g
    → OnGrid g (coord_of_cell g id_cell)
      × (cell_of_coord g
            (coord_of_cell g id_cell).i_x
            (coord_of_cell g id_cell).i_y
            (coord_of_cell g id_cell).i_z
          ≡ id_cell)
unfolding coord_of_cell nb_cells
cell_of_coord-coord_of_cell g id_cell is h = (
  record {
    in_x =
        div_lt g.grid_x g.grid_y (id_cell / g.grid_z) is.pos_y
          (div_lt (g.grid_x * g.grid_y) g.grid_z id_cell is.pos_z h);
    in_y = mod-lt (id_cell / g.grid_z) is.pos_y;
    in_z = mod-lt id_cell is.pos_z;
  },
  cell_of_coord_rows g _ _ _
      ∙ ap (λ (t : ℕ). t * g.grid_z + id_cell % g.grid_z)
          (div-add-mod' (id_cell / g.grid_z) g.grid_y)
      ∙ div-add-mod' id_cell g.grid_z,
)

suc-mod-cases :
    (n m : ℕ)
    → 0 < m
    → ((suc n % m ≡ 0) × (n % m ≡ m - 1)) ⊎ ((suc n % m ≡ suc (n % m)) × (suc (n % m) < m))
suc-mod-cases n m h = elim (dec_lt (suc (n % m)) m) [
  | yes p ↦ inr (suc-mod n m ∙ mod-eq_of_lt p, p)
  | no p ↦
      let lt = mod-lt n h in
      let e : suc (n % m) ≡ m = omega arith in
      inl (suc-mod n m ∙ ap (λ (t : ℕ). t % m) e ∙ mod_self m, omega arith)
]

-- The two ways a remainder of C that is not positive is brought back into the range.
wrap_zero : (m : ℕ) → (sub_ℕ 0 0 +ℤ pos m) %ℤ m ≡ pos 0
unfolding ◌+ℤ◌ ◌%ℤ◌
wrap_zero m = ground (arith, mod_self m)

wrap_below : (c m : ℕ) → suc c < m → (sub_ℕ 0 (suc c) +ℤ pos m) %ℤ m ≡ pos (m - 1 - c)
unfolding ◌+ℤ◌ ◌%ℤ◌
wrap_below c m h = let small : m - 1 - c < m = omega arith in ground (arith, mod-eq_of_lt small)

wrap_negsuc : (n m : ℕ) → 0 < m → wrap m (negsuc n) ≡ pos (m - 1 - n % m)
unfolding wrap
wrap_negsuc n m h = elim (suc-mod-cases n m h) [
  | inl (zero_rest, last) ↦ rw (zero_rest, last) (wrap_zero m ∙ ap pos (omega arith))
  | inr (next, lt) ↦ rw (next) (wrap_below (n % m) m lt)
]

-- For a positive size, `wrap` is the remainder that is never negative, for both signs of the argument.
pub wrap_lem :
    (n m : ℕ) → 0 < m → (wrap m (pos n) ≡ pos (n % m)) × (wrap m (negsuc n) ≡ pos (m - 1 - n % m))
unfolding wrap
wrap_lem n m h = (ground (arith, add-mod_right (n % m) m, mod-mod n m), wrap_negsuc n m h)
