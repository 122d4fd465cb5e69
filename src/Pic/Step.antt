-- ===== src/Pic/Step.antt =====
-- A time step of case_studies/pic/simulations/pic_demo.c, and the structures that it works on. The
-- arrays of the C code are lists; `none`, and a fault, is an access outside of an array.
pub mod Arrivals
pub mod Swap
pub mod Whole
pub mod Count
use optitrust.Prelude.{
  ℕ, zero, suc, ◌+◌, ◌≡◌, Bool, true, Option, none, some, List, [], ◌∷◌, get_elem?, set,
}
use optitrust.Prelude.Int.{ℤ, pos, negsuc}
use optitrust.Reals.{Reals}
use optitrust.Particle.{Vect, Particle, vect_add, vect_mul}
use optitrust.Memory.{Cmd, pure, ◌>>=◌, ◌>>◌, or_fault, get_item, out_of_fuel}
use optitrust.Memory.Allocator.{Allocator}
use optitrust.Bag.{
  Bag, Item, Iter, bag_init, bag_push, bag_swap, bag_iter_destructive_begin, bag_iter_begin,
  ho_loop,
}
use optitrust.Grid.{nb_cells, cell_of_coord}
use optitrust.Pic.Field.{Array3, update_field_using_deposit}
use optitrust.Pic.{
  Parameters, Corners, compute_constants, wrap_area, id_cell_of_pos, corner_interpolation_coeff,
  get_field_at_corners, accumulate_charge_at_corners, matrix_vect_mul,
}

-- The globals that a step changes.
pub record Sim (S : Type 0) : Type 0 where
  pub bags_cur : List Bag
  pub bags_next : List Bag
  pub deposit : List S
  pub field : List (Vect S)

-- An array index, which must not be negative.
abbrev pub index_of : ℤ → Option ℕ
index_of (pos i) = some i
index_of (negsuc i) = none

module _ {S : Type 0} (R : Reals S) (p : Parameters S) where
  -- The acceleration of a particle at a position.
  unfoldable pub acceleration : Corners (Vect S) → Vect S → Vect S
  acceleration field_at_corners position =
      let coeffs : Corners S = corner_interpolation_coeff R p position in
      let field_at_pos : Vect S = matrix_vect_mul R p coeffs field_at_corners in
      let c = compute_constants R p in
      vect_mul R (R.div c.particle_charge c.particle_mass) field_at_pos

  -- The particle `p2` of `step`.
  unfoldable pub moved : Corners (Vect S) → Particle S → Particle S
  moved field_at_corners q =
      let accel : Vect S = acceleration field_at_corners q.pos in
      let speed2 : Vect S = vect_add R q.speed (vect_mul R p.step_duration accel) in
      let pos2 : Vect S = wrap_area R p (vect_add R q.pos (vect_mul R p.step_duration speed2)) in
      record { pos = pos2; speed = speed2 }

  module _ {Pool : Type 0} (A : Allocator Pool (Particle S)) (capacity : ℕ) where
    -- Push a particle to its bag and deposit its charge.
    unfoldable pub place : Particle S → Sim S → Cmd Pool (Particle S) (Sim S)
    place p2 sim = do
      id_cell2 ← or_fault (index_of (id_cell_of_pos R p p2.pos))
      b ← or_fault (get_elem? sim.bags_next id_cell2)
      b' ← bag_push A capacity b p2
      deposit' ← or_fault (
          accumulate_charge_at_corners R p sim.deposit id_cell2
            (corner_interpolation_coeff R p p2.pos))
      pure (record sim { bags_next = set sim.bags_next id_cell2 b'; deposit = deposit' })

    -- The body of the loop of `step` over the particles of a cell.
    unfoldable pub move_particle : Corners (Vect S) → Item → Sim S → Cmd Pool (Particle S) (Sim S)
    move_particle field_at_corners item sim = do
      q ← get_item item.chunk item.index
      place (moved field_at_corners q) sim

    -- The last loop of `step`.
    unfoldable pub swap_cells : ℕ → ℕ → Sim S → Cmd Pool (Particle S) (Sim S)
    swap_cells zero id_cell sim = pure sim
    swap_cells (suc left) id_cell sim = do
      b ← or_fault (get_elem? sim.bags_cur id_cell)
      other ← or_fault (get_elem? sim.bags_next id_cell)
      let (b', other') = bag_swap b other in
          swap_cells left (id_cell + 1) (record sim {
            bags_cur = set sim.bags_cur id_cell b';
            bags_next = set sim.bags_next id_cell other';
          })

    -- `rounds` bounds the particles of a cell, `fuel` the chunks.
    module _ (rounds fuel : ℕ) where
      -- The body of the loop of `step` over the cells.
      unfoldable pub step_cell : ℕ → Sim S → Cmd Pool (Particle S) (Sim S)
      step_cell id_cell sim = do
        field_at_corners ← or_fault (get_field_at_corners R p id_cell sim.field)
        b ← or_fault (get_elem? sim.bags_cur id_cell)
        r ← bag_iter_destructive_begin A capacity fuel b
        sim' ← ho_loop A capacity rounds fuel (move_particle field_at_corners) r sim
        b' ← bag_init A capacity
        pure (record sim' { bags_cur = set sim'.bags_cur id_cell b' })

      unfoldable pub step_cells : ℕ → ℕ → Sim S → Cmd Pool (Particle S) (Sim S)
      step_cells zero id_cell sim = pure sim
      step_cells (suc left) id_cell sim = do
        sim' ← step_cell id_cell sim
        step_cells left (id_cell + 1) sim'

      module _ (poisson : Array3 S → Array3 S × Array3 S × Array3 S) where
        unfoldable pub step : Sim S → Cmd Pool (Particle S) (Sim S)
        step sim = do
          sim1 ← step_cells (nb_cells p.grid) 0 sim
          sim2 ← swap_cells (nb_cells p.grid) 0 sim1
          (field', deposit') ←
              or_fault (update_field_using_deposit R p poisson sim2.deposit sim2.field)
          pure (record sim2 { field = field'; deposit = deposit' })
