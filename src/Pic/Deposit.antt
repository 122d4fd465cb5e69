-- ===== src/Pic/Deposit.antt =====
-- The charge of a particle at the corners of its cell: nothing is lost, and no write leaves the array.
use optitrust.Prelude.{
  ℕ, zero, suc, ◌<◌, ◌≡◌, refl, sym, ap, ◌∙◌, Option, some, List, [], ◌∷◌, arith, length, AllBelow,
  get_elem?, get_elem?-lt, set, length-set,
}
use optitrust.Reals.{Reals, zero_real, one_real, IsExact}
use optitrust.Particle.{Vect}
use optitrust.Grid.{nb_cells}
use optitrust.Grid.Coords.{IsGrid}
use optitrust.Grid.Corners.{indices_of_corners-AllBelow, length-indices_of_corners}
use optitrust.Pic.{
  Parameters, Corners, corner_interpolation_coeff, add_all, accumulate_charge_at_corners,
}

module _ {S : Type 0} (R : Reals S) where
  abbrev pub total : List S → S
  total [] = zero_real R
  total (x ∷ xs) = R.add x (total xs)

  module _ (E : IsExact R) where
    swap_last : (a b c : S) → R.add (R.add a b) c ≡ R.add (R.add a c) b
    swap_last a b c = E.add_assoc a b c ∙ ap (R.add a) (E.add_comm b c) ∙ sym (E.add_assoc a c b)

    total-set :
        (xs : List S) (i : ℕ) (q v : S)
        → get_elem? xs i ≡ some v
        → total (set xs i (R.add v q)) ≡ R.add (total xs) q
    total-set [] i q v e = absurd (cc)
    total-set (x ∷ xs) zero q v e = swap_last v q (total xs) ∙ cc
    total-set (x ∷ xs) (suc i) q v e =
        ap (R.add x) (total-set xs i q v e) ∙ sym (E.add_assoc x (total xs) q)

    pair :
        (a c r t : S) → R.add c r ≡ one_real R → R.add (R.mul a c) (R.add (R.mul a r) t) ≡ R.add a t
    pair a c r t e =
        sym (E.add_assoc (R.mul a c) (R.mul a r) t)
        ∙ ap (λ s. R.add s t) (sym (E.mul_add a c r) ∙ ap (R.mul a) e ∙ E.mul_one a)

    module _ (cx rx cy ry cz rz : S) (ex : R.add cx rx ≡ one_real R) (ey : R.add cy ry ≡ one_real R)
        (ez : R.add cz rz ≡ one_real R) where
      four_edges :
          R.add
            (R.mul cx cy)
            (R.add (R.mul cx ry) (R.add (R.mul rx cy) (R.add (R.mul rx ry) (zero_real R))))
          ≡ one_real R
      four_edges =
          pair cx cy ry _ ey
          ∙ ap (R.add cx) (pair rx cy ry _ ey)
          ∙ sym (E.add_assoc cx rx _)
          ∙ E.add_zero _
          ∙ ex

      eight_corners :
          total (
            R.mul (R.mul cx cy) cz
            ∷ R.mul (R.mul cx cy) rz
            ∷ R.mul (R.mul cx ry) cz
            ∷ R.mul (R.mul cx ry) rz
            ∷ R.mul (R.mul rx cy) cz
            ∷ R.mul (R.mul rx cy) rz
            ∷ R.mul (R.mul rx ry) cz
            ∷ R.mul (R.mul rx ry) rz
            ∷ [])
          ≡ one_real R
      eight_corners =
          pair (R.mul cx cy) cz rz _ ez
          ∙ ap (R.add (R.mul cx cy)) (
              pair (R.mul cx ry) cz rz _ ez
              ∙ ap (R.add (R.mul cx ry)) (
                  pair (R.mul rx cy) cz rz _ ez
                  ∙ ap (R.add (R.mul rx cy)) (pair (R.mul rx ry) cz rz _ ez)))
          ∙ four_edges

    -- With exact arithmetic, the coefficients of the eight corners sum up to one.
    pub total-corner_interpolation_coeff :
        (p : Parameters S) (v : Vect S) → total (corner_interpolation_coeff R p v) ≡ one_real R
    unfolding corner_interpolation_coeff
    total-corner_interpolation_coeff p v =
        eight_corners _ _ _ _ _ _ (E.sub_add _ _) (E.sub_add _ _) (E.sub_add _ _)

    length-corner_interpolation_coeff :
        (p : Parameters S) (v : Vect S) → length (corner_interpolation_coeff R p v) ≡ 8
    unfolding corner_interpolation_coeff
    length-corner_interpolation_coeff p v = refl

    -- What a deposit returns: an array of the same length, with the charges added.
    pub record Deposited (deposit : List S) (charges : Corners S) (r : Option (List S))
        : Type 0 where
      pub after : List S
      pub returned : r ≡ some after
      pub size : length after ≡ length deposit
      pub sum : total after ≡ R.add (total deposit) (total charges)

    add_all-Deposited :
        (p : Parameters S) (deposit : List S) (is : List ℕ) (qs : Corners S)
        → AllBelow (length deposit) is
        → length is ≡ length qs
        → Deposited deposit qs (add_all R p deposit is qs)
    unfolding add_all
    add_all-Deposited p deposit [] [] below n = record {
      after = deposit;
      returned = refl;
      size = refl;
      sum = sym (E.add_zero _);
    }
    add_all-Deposited p deposit [] (q ∷ qs) below n = absurd (omega arith)
    add_all-Deposited p deposit (i ∷ is) [] below n = absurd (omega arith)
    add_all-Deposited p deposit (i ∷ is) (q ∷ qs) (h, below) n =
        let (d, e) = get_elem?-lt deposit i h in
        let next : List S = set deposit i (R.add d q) in
        let same = length-set deposit i (R.add d q) in
        let r = add_all-Deposited p next is qs (rw same below) (omega arith) in
        record {
          after = r.after;
          returned = rw e r.returned;
          size = r.size ∙ same;
          sum =
              r.sum ∙ ap (λ t. R.add t (total qs)) (total-set deposit i q d e) ∙ E.add_assoc _ _ _;
        }

    -- With exact arithmetic, on a grid with a cell: the deposit of the charge of a particle, at any
    -- position, in a cell of the grid stays within the array, keeps its length and adds one unit to its sum.
    pub accumulate_charge_at_corners-Deposited :
        (p : Parameters S) (deposit : List S) (id_cell : ℕ) (v : Vect S)
        → IsGrid p.grid
        → id_cell < nb_cells p.grid
        → length deposit ≡ nb_cells p.grid
        → (after : List S) × (accumulate_charge_at_corners R p deposit id_cell
              (corner_interpolation_coeff R p v)
            ≡ some after)
          × (length after ≡ nb_cells p.grid)
          × (total after ≡ R.add (total deposit) (one_real R))
    unfolding accumulate_charge_at_corners
    accumulate_charge_at_corners-Deposited p deposit id_cell v is h n =
        let r =
          add_all-Deposited p deposit _ (corner_interpolation_coeff R p v)
            (rw n (indices_of_corners-AllBelow p.grid id_cell is h))
            (length-indices_of_corners p.grid id_cell
              ∙ sym (length-corner_interpolation_coeff p v)) in
        (
          r.after,
          r.returned,
          r.size ∙ n,
          r.sum ∙ ap (R.add (total deposit)) (total-corner_interpolation_coeff p v),
        )
