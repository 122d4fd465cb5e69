-- ===== src/Pic/Field/Arrays.antt =====
-- The arrays that the field is computed with: every access is within them, and the deposit is zero
-- everywhere in the end.
use optitrust.Prelude.{
  ℕ, ◌+◌, ◌<◌, ◌≡◌, refl, ◌∙◌, Bool-cases, inl, inr, Option, some, List, ◌==◌, arith, if◌then◌else◌,
  length, length-set, get_elem?, get_elem?-lt, get_elem?-set, set,
}
use optitrust.Prelude.Options.{◌>>=◌}
use optitrust.Reals.{Reals, zero_real}
use optitrust.Particle.{Vect}
use optitrust.Grid.{Grid, nb_cells, cell_of_coord}
use optitrust.Grid.Corners.{coords-lt}
use optitrust.Pic.{Parameters}
use optitrust.Pic.Field.Loops.{loop-inv, fill-lem}
use optitrust.Pic.Field.{
  fill_loop, Array3, at3, density_factor, compute_rho_from_deposit, reset_deposit,
  compute_field_from_rho, update_field_using_deposit,
}

-- The array has an element for every cell of the grid.
abbrev pub IsArray3 : {S : Type 0} → Grid → Array3 S → Type 0
IsArray3 {S} g a =
    (i j k : ℕ) → i < g.grid_x → j < g.grid_y → k < g.grid_z → (x : S) × (at3 a i j k ≡ some x)

-- What the steps rely on: for a charge density on the whole grid, the solver gives three components
-- on the whole grid.
pub record IsSolver {S : Type 0} (g : Grid) (poisson : Array3 S → Array3 S × Array3 S × Array3 S)
    : Type 0 where
  pub whole_x : (rho : Array3 S) → IsArray3 g rho → IsArray3 g ((poisson rho).0)
  pub whole_y : (rho : Array3 S) → IsArray3 g rho → IsArray3 g ((poisson rho).1)
  pub whole_z : (rho : Array3 S) → IsArray3 g rho → IsArray3 g ((poisson rho).2)

module _ {S : Type 0} (R : Reals S) (p : Parameters S) where
  -- What one element, row and plane of the charge density hold.
  abbrev Dense : List S → ℕ → ℕ → ℕ → S → Type 0
  Dense deposit i j k x =
      (d : S) × (get_elem? deposit (cell_of_coord p.grid i j k) ≡ some d)
      × (x ≡ R.mul (density_factor R p) d)

  abbrev DenseRow : List S → ℕ → ℕ → List S → Type 0
  DenseRow deposit i j row =
      (k : ℕ) → k < p.grid.grid_z → (x : S) × (get_elem? row k ≡ some x) × Dense deposit i j k x

  abbrev DensePlane : List S → ℕ → List (List S) → Type 0
  DensePlane deposit i plane =
      (j : ℕ)
      → j < p.grid.grid_y
      → (row : List S) × (get_elem? plane j ≡ some row) × DenseRow deposit i j row

  abbrev elem_body : List S → ℕ → ℕ → ℕ → Option S
  elem_body deposit i j k =
      get_elem? deposit (cell_of_coord p.grid i j k) >>= λ d. some (R.mul (density_factor R p) d)

  abbrev row_body : List S → ℕ → ℕ → Option (List S)
  row_body deposit i j = fill_loop p.grid.grid_z 0 (elem_body deposit i j)

  abbrev plane_body : List S → ℕ → Option (List (List S))
  plane_body deposit i = fill_loop p.grid.grid_y 0 (row_body deposit i)

  Dense-elem :
      (deposit : List S) (i j k : ℕ)
      → length deposit ≡ nb_cells p.grid
      → cell_of_coord p.grid i j k < nb_cells p.grid
      → (x : S) × (elem_body deposit i j k ≡ some x) × Dense deposit i j k x
  Dense-elem deposit i j k n at =
      let (d, f) = get_elem?-lt deposit (cell_of_coord p.grid i j k) (rw n at) in
      (R.mul (density_factor R p) d, rw f refl, (d, f, refl))

  -- For a deposit with an element for every cell, the charge density has an element for every cell,
  -- which is the deposit of that cell times the factor.
  pub compute_rho_from_deposit-Dense :
      (deposit : List S)
      → length deposit ≡ nb_cells p.grid
      → (rho : Array3 S) × (compute_rho_from_deposit R p deposit ≡ some rho)
        × ((i j k : ℕ)
            → i < p.grid.grid_x
            → j < p.grid.grid_y
            → k < p.grid.grid_z
            → (d : S) × (get_elem? deposit (cell_of_coord p.grid i j k) ≡ some d)
              × (at3 rho i j k ≡ some (R.mul (density_factor R p) d)))
  unfolding compute_rho_from_deposit at3
  compute_rho_from_deposit-Dense deposit n =
      let (rho, e, planes) =
        fill-lem (DensePlane deposit) (plane_body deposit) p.grid.grid_x λ i hi.
          fill-lem (DenseRow deposit i) (row_body deposit i) p.grid.grid_y λ j hj.
            fill-lem (Dense deposit i j) (elem_body deposit i j) p.grid.grid_z
              λ k hk. Dense-elem deposit i j k n (coords-lt p.grid hi hj hk) in
      (
        rho,
        e,
        λ i j k hi hj hk.
            let (plane, e1, rows) = planes i hi in
            let (row, e2, xs) = rows j hj in
            let (x, e3, (d, f, same)) = xs k hk in (d, f, rw (e1, e2, e3, same) refl),
      )

  -- `resetDeposit` sets the deposit of every cell to zero.
  pub reset_deposit-zero :
      (deposit : List S)
      → length deposit ≡ nb_cells p.grid
      → (deposit' : List S) × (reset_deposit R p deposit ≡ some deposit')
        × (length deposit' ≡ nb_cells p.grid)
        × ((i : ℕ) → i < nb_cells p.grid → get_elem? deposit' i ≡ some (zero_real R))
  unfolding reset_deposit
  reset_deposit-zero deposit n =
      let (d', e, (size, zeros)) =
        loop-inv
          (λ i d.
            (length d ≡ nb_cells p.grid) × ((j : ℕ) → j < i → get_elem? d j ≡ some (zero_real R)))
          _ (nb_cells p.grid)
          (λ i d h (size, zeros).
            let (x, f) = get_elem?-lt d i (omega arith) in
            (
              set d i (zero_real R),
              rw f refl,
              (
                length-set d i (zero_real R) ∙ size,
                λ j hj. get_elem?-set d i j (zero_real R) (omega arith) ∙ next_zero i j d hj zeros,
              ),
            ))
          deposit (n, λ j h. absurd (omega arith)) in
      (d', e, size, zeros)
    where
      next_zero :
          (i j : ℕ) (d : List S)
          → j < i + 1
          → ((k : ℕ) → k < i → get_elem? d k ≡ some (zero_real R))
          → (if i == j then some (zero_real R) else get_elem? d j) ≡ some (zero_real R)
      next_zero i j d hj zeros = elim (Bool-cases (i == j)) [
        | inl y ↦ rw y refl
        | inr other ↦ rw other (zeros j (ground arith))
      ]

  module _ (poisson : Array3 S → Array3 S × Array3 S × Array3 S) where
    -- What the field loops write lies within the array, and they do not change its length.
    compute_field_from_rho-length :
        (rho : Array3 S) (field : List (Vect S))
        → IsSolver p.grid poisson
        → IsArray3 p.grid rho
        → length field ≡ nb_cells p.grid
        → (field' : List (Vect S)) × (compute_field_from_rho R p poisson rho field ≡ some field')
          × (length field' ≡ nb_cells p.grid)
    unfolding compute_field_from_rho
    compute_field_from_rho-length rho field solver whole n =
        let Sized : ℕ → List (Vect S) → Type 0 = λ _ f. length f ≡ nb_cells p.grid in
        loop-inv Sized _ p.grid.grid_x
          (λ i f hi n1.
            loop-inv Sized _ p.grid.grid_y
              (λ j f1 hj n2.
                loop-inv Sized _ p.grid.grid_z
                  (λ k f2 hk n3.
                    let (x, ex) = solver.whole_x rho whole i j k hi hj hk in
                    let (y, ey) = solver.whole_y rho whole i j k hi hj hk in
                    let (z, ez) = solver.whole_z rho whole i j k hi hj hk in
                    let at : cell_of_coord p.grid i j k < nb_cells p.grid =
                      coords-lt p.grid hi hj hk in
                    let (v, ev) = get_elem?-lt f2 (cell_of_coord p.grid i j k) (rw n3 at) in
                    let e : Vect S = record { x = x; y = y; z = z } in
                    (
                      set f2 (cell_of_coord p.grid i j k) e,
                      rw (ex, ey, ez, ev) refl,
                      length-set f2 (cell_of_coord p.grid i j k) e ∙ n3,
                    ))
                  f1 n2)
              f n1)
          field n

    -- For arrays with an element for every cell, and a solver that gives whole arrays,
    -- `updateFieldUsingDeposit` stays within the arrays, keeps the length of the field and leaves a
    -- deposit that is zero everywhere.
    pub update_field_using_deposit-lem :
        (deposit : List S) (field : List (Vect S))
        → IsSolver p.grid poisson
        → length deposit ≡ nb_cells p.grid
        → length field ≡ nb_cells p.grid
        → (field' : List (Vect S)) × (deposit' : List S) × (update_field_using_deposit R p poisson
              deposit field
            ≡ some (field', deposit'))
          × (length field' ≡ nb_cells p.grid)
          × (length deposit' ≡ nb_cells p.grid)
          × ((i : ℕ) → i < nb_cells p.grid → get_elem? deposit' i ≡ some (zero_real R))
    unfolding update_field_using_deposit
    update_field_using_deposit-lem deposit field solver n m =
        let (rho, e, dense) = compute_rho_from_deposit-Dense deposit n in
        let (field', e', m') =
          compute_field_from_rho-length rho field solver
            (λ i j k hi hj hk. (let (d, _, at) = dense i j k hi hj hk in (_, at))) m in
        let (deposit', e'', n', zeros) = reset_deposit-zero deposit n in
        (field', deposit', rw (e, e', e'') refl, m', n', zeros)
