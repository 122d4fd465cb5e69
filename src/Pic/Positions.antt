-- ===== src/Pic/Positions.antt =====
-- The cell of a position: `wrapArea` brings every position onto the grid.
use optitrust.Prelude.{ℕ, ◌+◌, ◌*◌, ◌<◌, ◌≡◌, refl, ap, ◌∙◌, true, inl, inr, Bool-cases, arith}
use optitrust.Prelude.Int.{pos, ◌+ℤ◌, ◌*ℤ◌}
use optitrust.Reals.{Reals, zero_real, IsOrdered}
use optitrust.Particle.{Vect}
use optitrust.Grid.{Coord, cell_of_coord, nb_cells}
use optitrust.Grid.Coords.{OnGrid, cell_of_coord-lt}
use optitrust.Matrix.{mindex3}
use optitrust.Pic.{Parameters, compute_constants, int_of_double, fwrap, wrap_area, id_cell_of_pos}

pos-add : (a b : ℕ) → (pos a +ℤ pos b) ≡ pos (a + b)
unfolding ◌+ℤ◌
pos-add a b = ground arith

pos-mul : (a b : ℕ) → (pos a *ℤ pos b) ≡ pos (a * b)
unfolding ◌*ℤ◌
pos-mul a b = ground arith

module _ {S : Type 0} (R : Reals S) where
  fwrap-range :
      (area : S) (n : ℕ) (x : S)
      → IsOrdered R area n
      → (R.ge (fwrap R area x) (zero_real R) ≡ true) × (R.lt (fwrap R area x) area ≡ true)
  unfolding fwrap
  fwrap-range area n x o = elim (Bool-cases (R.ge (R.fmod x area) (zero_real R))) [
    | inl e ↦ rw (e) (e, o.fmod_lt x)
    | inr e ↦ rw (e) (o.fmod_gt x, o.add_lt _ e)
  ]

  int_of_double-lt :
      (area : S) (n : ℕ) (x : S)
      → IsOrdered R area n
      → R.ge x (zero_real R) ≡ true
      → R.lt x area ≡ true
      → (i : ℕ) × (i < n) × (int_of_double R (R.div x (R.div area (R.of_int (pos n)))) ≡ pos i)
  unfolding int_of_double
  int_of_double-lt area n x o g l =
      let g' = o.div_ge x g in
      let (i, lt, e) = o.to_int_lt _ g' (o.div_lt x g l) in
      (i, lt, rw (o.ge_lt _ g', e) (pos-add i 0 ∙ ap pos (omega arith)))

  -- The order of the numbers on the three axes.
  pub record IsOrderedBox (p : Parameters S) : Type 0 where
    pub ordered_x : IsOrdered R p.area_x p.grid.grid_x
    pub ordered_y : IsOrdered R p.area_y p.grid.grid_y
    pub ordered_z : IsOrdered R p.area_z p.grid.grid_z

  -- With exact arithmetic, `idCellOfPos` of a position that went through `wrapArea` is the number of a
  -- cell with coordinates on the grid, and so below the number of cells.
  pub id_cell_of_pos-wrap_area :
      (p : Parameters S) (v : Vect S)
      → IsOrderedBox p
      → (k : Coord) × OnGrid p.grid k
        × (id_cell_of_pos R p (wrap_area R p v) ≡ pos (cell_of_coord p.grid k.i_x k.i_y k.i_z))
        × (cell_of_coord p.grid k.i_x k.i_y k.i_z < nb_cells p.grid)
  unfolding id_cell_of_pos wrap_area compute_constants cell_of_coord mindex3
  id_cell_of_pos-wrap_area p v o =
      let (gx, lx) = fwrap-range p.area_x p.grid.grid_x v.x o.ordered_x in
      let (gy, ly) = fwrap-range p.area_y p.grid.grid_y v.y o.ordered_y in
      let (gz, lz) = fwrap-range p.area_z p.grid.grid_z v.z o.ordered_z in
      let (i, hi, ei) = int_of_double-lt p.area_x p.grid.grid_x _ o.ordered_x gx lx in
      let (j, hj, ej) = int_of_double-lt p.area_y p.grid.grid_y _ o.ordered_y gy ly in
      let (k, hk, ek) = int_of_double-lt p.area_z p.grid.grid_z _ o.ordered_z gz lz in
      let at : Coord = record { i_x = i; i_y = j; i_z = k } in
      let on : OnGrid p.grid at = record { in_x = hi; in_y = hj; in_z = hk } in
      (
        at,
        on,
        rw (ei, ej, ek, pos-mul, pos-mul, pos-mul, pos-add, pos-add) refl,
        cell_of_coord-lt p.grid at on,
      )
