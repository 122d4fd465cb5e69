-- ===== src/Pic/Step/Arrivals.antt =====
-- What the particles do in a step, and what a single particle does to the bags and the deposit.
pub mod Place
pub mod Cell
pub mod Sweep
pub mod Loop
use mathlib.Core.List.{Perm, foldl}
use optitrust.Prelude.{
  ℕ, suc, zero, ◌+◌, ◌<◌, ◌≡◌, Bool, true, false, Option, none, some, List, [], ◌∷◌, ◌==◌,
  if◌then◌else◌, length, get_elem?,
}
use optitrust.Prelude.Int.{ℤ, pos, negsuc}
use optitrust.Reals.{Reals, zero_real, one_real}
use optitrust.Particle.{Vect, Particle}
use optitrust.Memory.{State}
use optitrust.Memory.Allocator.{Allocator, IsAllocator, Region}
use optitrust.Bag.{Bag}
use optitrust.Bag.Chain.{Cells, elems}
use optitrust.Grid.{nb_cells}
use optitrust.Pic.{Parameters, Corners, id_cell_of_pos, get_field_at_corners}
use optitrust.Pic.Bags.{Slot, cur, next, Owned}
use optitrust.Pic.Deposit.{total}
use optitrust.Pic.Step.{Sim, moved}

-- The bag arrays as one family.
abbrev pub bag_at : {S : Type 0} → Sim S → Slot → Option Bag
bag_at sim (cur i) = get_elem? sim.bags_cur i
bag_at sim (next i) = get_elem? sim.bags_next i

abbrev pub in_cell : ℕ → ℤ → Bool
in_cell j (pos i) = i == j
in_cell j (negsuc i) = false

module _ {S : Type 0} (R : Reals S) (p : Parameters S) where
  -- Those of the particles whose position is in cell `j`.
  abbrev pub located : ℕ → List (Particle S) → List (Particle S)
  located j [] = []
  located j (q ∷ qs) =
      if in_cell j (id_cell_of_pos R p q.pos) then q ∷ located j qs else located j qs

  -- A particle that arrives, before those that came earlier.
  abbrev pub arrive : Corners (Vect S) → List (Particle S) → Particle S → List (Particle S)
  arrive fc done q = moved R p fc q ∷ done

  -- The field at the corners of a cell of the grid.
  abbrev pub corners_of : List (Vect S) → ℕ → Corners (Vect S)
  corners_of field id_cell = elim (get_field_at_corners R p id_cell field) [
    | none ↦ []
    | some fc ↦ fc
  ]

  -- All particles of `left` cells from the first on, moved, the last one first.
  abbrev pub arrivals :
      List (Vect S) → (ℕ → Cells (Particle S)) → ℕ → ℕ → List (Particle S) → List (Particle S)
  arrivals field cells zero first done = done
  arrivals field cells (suc left) first done =
      arrivals field cells left (first + 1)
        (foldl (arrive (corners_of field first)) done (elems (cells first)))

  -- The sum of `n` unit charges.
  abbrev pub units : ℕ → S
  units zero = zero_real R
  units (suc n) = R.add (units n) (one_real R)

  -- All cells of `bagsNext` are alive and hold the particles `done`, each in its cell, and the deposit
  -- has their charge.
  pub record Arrived {Pool : Type 0} (capacity : ℕ) (st : State Pool (Particle S)) (u : Region)
      (sim : Sim S) (c : Slot → Option (Cells (Particle S))) (done : List (Particle S))
      : Type 0 where
    pub owned : Owned capacity st u (bag_at sim) c
    pub nexts :
        (j : ℕ)
        → j < nb_cells p.grid
        → (ds : Cells (Particle S)) × (c (next j) ≡ some ds) × Perm (elems ds) (located j done)
    pub size_cur : length sim.bags_cur ≡ nb_cells p.grid
    pub size_next : length sim.bags_next ≡ nb_cells p.grid
    pub size_deposit : length sim.deposit ≡ nb_cells p.grid
    pub charge : total R sim.deposit ≡ units (length done)
