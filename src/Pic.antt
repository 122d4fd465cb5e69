-- ===== src/Pic.antt =====
-- case_studies/pic/simulations/pic_demo.c: the parameters of a simulation, the position of a particle
-- on the grid, and the values that are read and written at the corners of a cell.
pub mod Positions
pub mod Bags
pub mod Field
pub mod Step
pub mod Deposit
use mathlib.Core.List.{foldl}
use optitrust.Prelude.{
  ℕ, zero, suc, ◌+◌, ◌*◌, ◌≡◌, Bool, true, false, Option, none, some, List, [], ◌∷◌, map,
  if◌then◌else◌, get_elem?, set,
}
use optitrust.Prelude.Int.{ℤ, pos, negsuc, ◌+ℤ◌, ◌*ℤ◌}
use optitrust.Prelude.Options.{◌>>=◌}
use optitrust.Reals.{Reals, zero_real, one_real}
use optitrust.Particle.{Vect, Particle, vect_add, vect_mul}
use optitrust.Grid.{Grid, nb_cells, indices_of_corners}

-- The globals that `loadParameters` sets.
pub record Parameters (S : Type 0) : Type 0 where
  pub grid : Grid
  pub area_x : S
  pub area_y : S
  pub area_z : S
  pub step_duration : S
  pub average_charge_density : S
  pub average_mass_density : S
  pub nb_particles : ℕ

-- The globals that `computeConstants` sets.
pub record Constants (S : Type 0) : Type 0 where
  pub nb_cells : ℕ
  pub cell_x : S
  pub cell_y : S
  pub cell_z : S
  pub particle_charge : S
  pub particle_mass : S

-- A value at each of the eight corners of a cell.
abbrev pub Corners : Type 0 → Type 0
Corners A = List A

module _ {S : Type 0} (R : Reals S) where
  unfoldable pub compute_constants : Parameters S → Constants S
  compute_constants p =
      let of_ℕ : ℕ → S = λ n. R.of_int (pos n) in
      let cells : ℕ = nb_cells p.grid in
      let cell_x : S = R.div p.area_x (of_ℕ p.grid.grid_x) in
      let cell_y : S = R.div p.area_y (of_ℕ p.grid.grid_y) in
      let cell_z : S = R.div p.area_z (of_ℕ p.grid.grid_z) in
      let cell_volume : S = R.mul (R.mul cell_x cell_y) cell_z in
      let total_volume : S = R.mul (of_ℕ cells) cell_volume in
      let total_charge : S = R.mul p.average_charge_density total_volume in
      let total_mass : S = R.mul p.average_mass_density total_volume in
      record {
        nb_cells = cells;
        cell_x = cell_x;
        cell_y = cell_y;
        cell_z = cell_z;
        particle_charge = R.div total_charge (of_ℕ p.nb_particles);
        particle_mass = R.div total_mass (of_ℕ p.nb_particles);
      }

  unfoldable pub int_of_double : S → ℤ
  int_of_double a = R.to_int a +ℤ (if R.lt a (zero_real R) then negsuc 0 else pos 0)

  unfoldable pub fwrap : S → S → S
  fwrap grid_width x =
      let r : S = R.fmod x grid_width in if R.ge r (zero_real R) then r else R.add r grid_width

  -- relativePosX, relativePosY and relativePosZ, for a cell of this width
  unfoldable pub relative_pos : S → S → S
  relative_pos width x =
      let i : ℤ = int_of_double (R.div x width) in R.div (R.sub x (R.mul (R.of_int i) width)) width

  module _ (p : Parameters S) where
    abbrev c : Constants S
    c = compute_constants p

    unfoldable pub wrap_area : Vect S → Vect S
    wrap_area v = record { x = fwrap p.area_x v.x; y = fwrap p.area_y v.y; z = fwrap p.area_z v.z }

    -- The product of `cellOfCoord`, for coordinates of either sign.
    unfoldable pub id_cell_of_pos : Vect S → ℤ
    id_cell_of_pos v =
        let i_x : ℤ = int_of_double (R.div v.x c.cell_x) in
        let i_y : ℤ = int_of_double (R.div v.y c.cell_y) in
        let i_z : ℤ = int_of_double (R.div v.z c.cell_z) in
        let n_y : ℤ = pos p.grid.grid_y in
        let n_z : ℤ = pos p.grid.grid_z in i_x *ℤ n_y *ℤ n_z +ℤ i_y *ℤ n_z +ℤ i_z

    unfoldable pub corner_interpolation_coeff : Vect S → Corners S
    corner_interpolation_coeff v =
        let r_x : S = relative_pos c.cell_x v.x in
        let r_y : S = relative_pos c.cell_y v.y in
        let r_z : S = relative_pos c.cell_z v.z in
        let c_x : S = R.sub (one_real R) r_x in
        let c_y : S = R.sub (one_real R) r_y in
        let c_z : S = R.sub (one_real R) r_z in
        R.mul (R.mul c_x c_y) c_z
        ∷ R.mul (R.mul c_x c_y) r_z
        ∷ R.mul (R.mul c_x r_y) c_z
        ∷ R.mul (R.mul c_x r_y) r_z
        ∷ R.mul (R.mul r_x c_y) c_z
        ∷ R.mul (R.mul r_x c_y) r_z
        ∷ R.mul (R.mul r_x r_y) c_z
        ∷ R.mul (R.mul r_x r_y) r_z
        ∷ []

    -- The loop over the corners in `getFieldAtCorners`; `none` is a read outside of the array.
    read_all : {A : Type 0} → List A → List ℕ → Option (Corners A)
    read_all values [] = some []
    read_all values (i ∷ is) = do v ← get_elem? values i; vs ← read_all values is; some (v ∷ vs)

    pub get_field_at_corners : ℕ → List (Vect S) → Option (Corners (Vect S))
    unfolding read_all
    get_field_at_corners id_cell field = read_all field (indices_of_corners p.grid id_cell)

    -- The loop over the corners in `accumulateChargeAtCorners`; `none` is a write outside of the array.
    add_all : List S → List ℕ → Corners S → Option (List S)
    add_all deposit [] charges = some deposit
    add_all deposit (i ∷ is) [] = none
    add_all deposit (i ∷ is) (q ∷ qs) = do
      d ← get_elem? deposit i
      add_all (set deposit i (R.add d q)) is qs

    pub accumulate_charge_at_corners : List S → ℕ → Corners S → Option (List S)
    unfolding add_all
    accumulate_charge_at_corners deposit id_cell charges =
        add_all deposit (indices_of_corners p.grid id_cell) charges

    -- The loop of `matrix_vect_mul`.
    add_products : Vect S → Corners S → Corners (Vect S) → Vect S
    add_products res [] matrix = res
    add_products res (q ∷ coeffs) [] = res
    add_products res (q ∷ coeffs) (v ∷ matrix) =
        add_products (vect_add R res (vect_mul R q v)) coeffs matrix

    pub matrix_vect_mul : Corners S → Corners (Vect S) → Vect S
    unfolding add_products
    matrix_vect_mul coeffs matrix =
        let z : S = zero_real R in add_products (record { x = z; y = z; z = z }) coeffs matrix
