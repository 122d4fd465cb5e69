-- ===== src/Tests/Pic.antt =====
-- A particle on a grid of 2 by 3 by 4 cells of width one.
use optitrust.Prelude.{ℕ, ◌<◌, ◌≡◌, refl, List, [], ◌∷◌, some, arith, length, map, get_elem?}
use optitrust.Prelude.Int.{ℤ, pos, negsuc}
use optitrust.Reals.{one_real, zero_real}
use optitrust.Particle.{Vect}
use optitrust.Grid.{Coord, nb_cells, cell_of_coord}
use optitrust.Grid.Coords.{OnGrid}
use optitrust.Pic.{
  Parameters, accumulate_charge_at_corners, corner_interpolation_coeff, id_cell_of_pos, wrap_area,
}
use optitrust.Pic.Positions.{IsOrderedBox, id_cell_of_pos-wrap_area}
use optitrust.Pic.Deposit.{
  total, total-corner_interpolation_coeff, accumulate_charge_at_corners-Deposited,
}
use optitrust.Pic.Field.{
  Array3, compute_rho_from_deposit, at3, density_factor, update_field_using_deposit,
}
use optitrust.Pic.Field.Arrays.{compute_rho_from_deposit-Dense, update_field_using_deposit-lem}
use optitrust.Tests.Grid.{small_grid, small_grid-IsGrid, in_small_grid, small_grid-size}
use optitrust.Tests.Integers.{integers, integers-IsExact, integers-IsOrdered}

abbrev parameters : Parameters ℤ
parameters = record {
  grid = small_grid;
  area_x = pos 2;
  area_y = pos 3;
  area_z = pos 4;
  step_duration = pos 1;
  average_charge_density = negsuc 0;
  average_mass_density = pos 1;
  nb_particles = 24;
}

-- A position outside of the area, in two of the directions.
abbrev position : Vect ℤ
position = record { x = pos 1; y = negsuc 0; z = pos 7 }

parameters-IsOrderedBox : IsOrderedBox integers parameters
parameters-IsOrderedBox = record {
  ordered_x = integers-IsOrdered 2 (omega arith);
  ordered_y = integers-IsOrdered 3 (omega arith);
  ordered_z = integers-IsOrdered 4 (omega arith);
}

id_cell_of_pos-wrap_area_example :
    (k : Coord) × OnGrid small_grid k
    × (id_cell_of_pos integers parameters (wrap_area integers parameters position)
        ≡ pos (cell_of_coord small_grid k.i_x k.i_y k.i_z))
    × (cell_of_coord small_grid k.i_x k.i_y k.i_z < nb_cells small_grid)
id_cell_of_pos-wrap_area_example =
    id_cell_of_pos-wrap_area integers parameters position parameters-IsOrderedBox

total-corner_interpolation_coeff_example :
    total integers (corner_interpolation_coeff integers parameters position) ≡ one_real integers
total-corner_interpolation_coeff_example =
    total-corner_interpolation_coeff integers integers-IsExact parameters position

abbrev empty_deposit : List ℤ
empty_deposit =
    let z : ℤ = pos 0 in
    z ∷ z ∷ z ∷ z ∷ z ∷ z ∷ z ∷ z ∷ z ∷ z ∷ z ∷ z ∷ z ∷ z ∷ z ∷ z ∷ z ∷ z ∷ z ∷ z ∷ z ∷ z ∷ z ∷ z
    ∷ []

empty_deposit-size : length empty_deposit ≡ nb_cells small_grid
empty_deposit-size = rw (small_grid-size) refl

accumulate_charge_at_corners-Deposited_example :
    (after : List ℤ) × (accumulate_charge_at_corners integers parameters empty_deposit 23
        (corner_interpolation_coeff integers parameters position)
      ≡ some after)
    × (length after ≡ nb_cells small_grid)
    × (total integers after ≡ integers.add (total integers empty_deposit) (one_real integers))
accumulate_charge_at_corners-Deposited_example =
    accumulate_charge_at_corners-Deposited integers integers-IsExact parameters empty_deposit 23
      position small_grid-IsGrid in_small_grid empty_deposit-size

compute_rho_from_deposit-Dense_example :
    (rho : Array3 ℤ) × (compute_rho_from_deposit integers parameters empty_deposit ≡ some rho)
    × ((i j k : ℕ)
        → i < 2
        → j < 3
        → k < 4
        → (d : ℤ) × (get_elem? empty_deposit (cell_of_coord small_grid i j k) ≡ some d)
          × (at3 rho i j k ≡ some (integers.mul (density_factor integers parameters) d)))
compute_rho_from_deposit-Dense_example =
    compute_rho_from_deposit-Dense integers parameters empty_deposit empty_deposit-size

abbrev empty_field : List (Vect ℤ)
empty_field = map (λ q. record { x = q; y = q; z = q }) empty_deposit

empty_field-size : length empty_field ≡ nb_cells small_grid
empty_field-size = rw (small_grid-size) refl

abbrev copies : Array3 ℤ → Array3 ℤ × Array3 ℤ × Array3 ℤ
copies rho = (rho, rho, rho)

update_field_using_deposit-lem_example :
    (field' : List (Vect ℤ)) × (deposit' : List ℤ) × (update_field_using_deposit integers parameters
        copies empty_deposit empty_field
      ≡ some (field', deposit'))
    × (length field' ≡ nb_cells small_grid)
    × (length deposit' ≡ nb_cells small_grid)
    × ((i : ℕ) → i < nb_cells small_grid → get_elem? deposit' i ≡ some (zero_real integers))
update_field_using_deposit-lem_example =
    update_field_using_deposit-lem integers parameters copies empty_deposit empty_field
      (record { whole_x = λ rho w. w; whole_y = λ rho w. w; whole_z = λ rho w. w })
      empty_deposit-size empty_field-size
