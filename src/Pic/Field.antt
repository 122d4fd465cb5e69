-- ===== src/Pic/Field.antt =====
-- The field from the deposit, in case_studies/pic/simulations/pic_demo.c and pic_demo_aux.c. The
-- Poisson solver, which takes the charge density to the three components of the field, is a parameter.
pub mod Loops
pub mod Arrays
use optitrust.Prelude.{ℕ, zero, suc, ◌+◌, ◌≡◌, Option, none, some, List, [], ◌∷◌, get_elem?, set}
use optitrust.Prelude.Int.{pos}
use optitrust.Prelude.Options.{◌>>=◌}
use optitrust.Loops.{for_loop}
use optitrust.Reals.{Reals, zero_real}
use optitrust.Particle.{Vect}
use optitrust.Grid.{nb_cells, cell_of_coord}
use optitrust.Pic.{Parameters}

-- The array that a loop over it fills, when iteration `i` writes the element `i`.
unfoldable pub fill_loop : {A : Type 0} → ℕ → ℕ → (ℕ → Option A) → Option (List A)
fill_loop zero first body = some []
fill_loop (suc left) first body = do
  x ← body first
  xs ← fill_loop left (first + 1) body
  some (x ∷ xs)

-- `double***`
abbrev pub Array3 : Type 0 → Type 0
Array3 S = List (List (List S))

unfoldable pub at3 : {S : Type 0} → Array3 S → ℕ → ℕ → ℕ → Option S
at3 a i j k = do plane ← get_elem? a i; row ← get_elem? plane j; get_elem? row k

module _ {S : Type 0} (R : Reals S) (p : Parameters S) where
  -- What a unit of deposit adds to the charge density.
  unfoldable pub density_factor : S
  density_factor =
      R.div (R.mul p.average_charge_density (R.of_int (pos (nb_cells p.grid))))
        (R.of_int (pos p.nb_particles))

  unfoldable pub compute_rho_from_deposit : List S → Option (Array3 S)
  compute_rho_from_deposit deposit = fill_loop p.grid.grid_x 0 λ i. fill_loop p.grid.grid_y 0 λ j.
      fill_loop p.grid.grid_z 0
        λ k. get_elem? deposit (cell_of_coord p.grid i j k) >>= λ d. some (R.mul density_factor d)

  unfoldable pub reset_deposit : List S → Option (List S)
  reset_deposit deposit =
      for_loop (nb_cells p.grid) 0 (λ i d. get_elem? d i >>= λ _. some (set d i (zero_real R)))
        deposit

  module _ (poisson : Array3 S → Array3 S × Array3 S × Array3 S) where
    unfoldable pub compute_field_from_rho : Array3 S → List (Vect S) → Option (List (Vect S))
    compute_field_from_rho rho field =
        let (e_x, e_y, e_z) = poisson rho in
        for_loop p.grid.grid_x 0
          (λ i. for_loop p.grid.grid_y 0 λ j. for_loop p.grid.grid_z 0 λ k f. do
            x ← at3 e_x i j k
            y ← at3 e_y i j k
            z ← at3 e_z i j k
            _ ← get_elem? f (cell_of_coord p.grid i j k)
            some (set f (cell_of_coord p.grid i j k) (record { x = x; y = y; z = z })))
          field

    -- The new field, and the deposit when it is cleared.
    unfoldable pub update_field_using_deposit :
        List S → List (Vect S) → Option (List (Vect S) × List S)
    update_field_using_deposit deposit field = do
      rho ← compute_rho_from_deposit deposit
      field' ← compute_field_from_rho rho field
      deposit' ← reset_deposit deposit
      some (field', deposit')
