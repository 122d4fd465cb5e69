-- ===== src/Tests/Step.antt =====
-- A world of one cell with one particle.
use optitrust.Prelude.{
  ℕ, zero, suc, ◌≤◌, ◌<◌, ◌≡◌, refl, false, true, false≢true, Option, none, some, List, [], ◌∷◌,
  arith, take,
}
use mathlib.Core.List.{Perm}
use mathlib.Core.Option.{some-injective}
use mathlib.Core.Path.{subst}
use optitrust.Prelude.Int.{ℤ, pos, negsuc}
use optitrust.Particle.{Vect, Particle}
use optitrust.Memory.{Ptr, Chunk, State, cell, write}
use optitrust.Memory.Returns.{Returns}
use optitrust.Memory.Allocator.{Allocator, IsAllocator, Region, insert}
use optitrust.Alloc.{naive}
use optitrust.Alloc.Naive.{NaiveValid, write-NaiveValid, naive-IsAllocator}
use optitrust.Bag.{Bag}
use optitrust.Bag.Chain.{Cells, elems, last_ptr, Holds, nil, cons}
use optitrust.Bag.Shape.{IsBag}
use optitrust.Grid.{nb_cells}
use optitrust.Grid.Coords.{IsGrid}
use optitrust.Pic.{Parameters}
use optitrust.Pic.Bags.{Slot, cur, next, same_slot, held, Owned}
use optitrust.Pic.Positions.{IsOrderedBox}
use optitrust.Pic.Field.{Array3}
use optitrust.Pic.Field.Arrays.{IsSolver}
use optitrust.Pic.Step.{Sim, step}
use optitrust.Pic.Step.Arrivals.{bag_at, located, arrivals}
use optitrust.Pic.Step.Count.{particles, step-particles}
use optitrust.Pic.Step.Whole.{IsWorld, step-IsWorld}
use optitrust.Tests.Memory.{malloc, malloc-IsMalloc, none_used}
use optitrust.Tests.Integers.{integers, integers-IsExact, integers-IsOrdered}

abbrev Dust : Type 0
Dust = Particle ℤ

abbrev origin : Vect ℤ
origin = record { x = pos 0; y = pos 0; z = pos 0 }

abbrev grain : Dust
grain = record { pos = origin; speed = record { x = pos 3; y = negsuc 1; z = pos 0 } }

abbrev one_cell : Parameters ℤ
one_cell = record {
  grid = record { grid_x = 1; grid_y = 1; grid_z = 1 };
  area_x = pos 1;
  area_y = pos 1;
  area_z = pos 1;
  step_duration = pos 1;
  average_charge_density = negsuc 0;
  average_mass_density = pos 1;
  nb_particles = 1;
}

one_cell-size : nb_cells one_cell.grid ≡ 1
unfolding nb_cells
one_cell-size = refl

abbrev dust_alloc : Allocator (Unit {0}) Dust
dust_alloc = naive (malloc grain)

unfoldable dust_alloc-IsAllocator : IsAllocator dust_alloc 2
unfolding naive-IsAllocator
dust_alloc-IsAllocator = naive-IsAllocator (malloc grain) (malloc-IsMalloc grain)

abbrev chunk : ℕ → Chunk Dust
chunk size = record { next = 0; size = size; items = grain ∷ grain ∷ [] }

abbrev nothing : State (Unit {0}) Dust
nothing = record { heap = []; pool = tt }

abbrev heap2 : State (Unit {0}) Dust
heap2 = write nothing 2 (some (chunk 0))

abbrev heap1 : State (Unit {0}) Dust
heap1 = write heap2 1 (some (chunk 1))

abbrev used : Region
used = insert 1 (insert 2 none_used)

used-NaiveValid : NaiveValid 2 heap1 used
used-NaiveValid =
    let v0 : NaiveValid {P = Dust} 2 nothing none_used = record {
      whole = λ a i. absurd (false≢true i);
      no_leak = λ a o. refl;
    } in
    let v2 : NaiveValid 2 heap2 (insert 2 none_used) =
      write-NaiveValid nothing (insert 2 none_used) 2 (chunk 0) (λ a i e. v0.whole a (ground arith))
        (λ a o e. v0.no_leak a (ground arith)) refl (omega arith) refl in
    write-NaiveValid heap2 used 1 (chunk 1) (λ a i e. v2.whole a (ground arith))
      (λ a o e. v2.no_leak a (ground arith)) refl (omega arith) refl

used-Valid : dust_alloc-IsAllocator.Valid heap1 used
unfolding dust_alloc-IsAllocator
used-Valid = used-NaiveValid

abbrev bag_of : Ptr → Bag
bag_of a = record { front = a; back = a }

holds :
    (a : Ptr) (size : ℕ) (xs : List Dust)
    → (1 ≤ a)
    → cell heap1.heap a ≡ some (chunk size)
    → size ≤ 1
    → take size (grain ∷ grain ∷ []) ≡ xs
    → Holds 2 heap1 a 0 xs
holds a size xs ne at le e = record {
  chunk = chunk size;
  points = record { ne_null = omega arith; holds = at };
  places = refl;
  leads = refl;
  fits = omega arith;
  contents = e;
}

one-IsBag : IsBag 2 heap1 used (bag_of 1) ((1, grain ∷ []) ∷ [])
unfolding last_ptr
one-IsBag = record {
  chain = cons (holds 1 1 _ (omega arith) refl (omega arith) refl) refl nil;
  owned = λ a i. ground arith;
  back = refl;
  room = omega arith;
}

two-IsBag : IsBag 2 heap1 used (bag_of 2) ((2, []) ∷ [])
unfolding last_ptr
two-IsBag = record {
  chain = cons (holds 2 0 _ (omega arith) refl (omega arith) refl) refl nil;
  owned = λ a i. ground arith;
  back = refl;
  room = omega arith;
}

abbrev sim : Sim ℤ
sim = record {
  bags_cur = bag_of 1 ∷ [];
  bags_next = bag_of 2 ∷ [];
  deposit = pos 0 ∷ [];
  field = origin ∷ [];
}

abbrev contents : Slot → Option (Cells Dust)
contents (cur zero) = some ((1, grain ∷ []) ∷ [])
contents (cur (suc i)) = none
contents (next zero) = some ((2, []) ∷ [])
contents (next (suc i)) = none

abbrev cells : ℕ → Cells Dust
cells i = (1, grain ∷ []) ∷ []

contents-Owned : Owned 2 heap1 used (bag_at sim) contents
contents-Owned = record { bags = bags; apart = apart }
  where
    bags :
        (s : Slot) (cs : Cells Dust)
        → contents s ≡ some cs
        → (b : Bag) × (bag_at sim s ≡ some b) × IsBag 2 heap1 used b cs
    bags (cur zero) cs e =
        (bag_of 1, refl, subst (IsBag 2 heap1 used (bag_of 1)) (some-injective _ _ e) one-IsBag)
    bags (cur (suc i)) cs e = absurd (cc)
    bags (next zero) cs e =
        (bag_of 2, refl, subst (IsBag 2 heap1 used (bag_of 2)) (some-injective _ _ e) two-IsBag)
    bags (next (suc i)) cs e = absurd (cc)

    apart :
        (s t : Slot)
        → same_slot s t ≡ false
        → (a : Ptr) → held (contents s) a ≡ true
        → held (contents t) a ≡ false
    apart (cur zero) (cur zero) ne a h = absurd (ground (arith, ne))
    apart (cur zero) (next zero) ne a h = ground (arith, h)
    apart (next zero) (cur zero) ne a h = ground (arith, h)
    apart (next zero) (next zero) ne a h = absurd (ground (arith, ne))
    apart s (cur (suc i)) ne a h = refl
    apart s (next (suc i)) ne a h = refl
    apart (cur (suc i)) t ne a h = absurd (cc)
    apart (next (suc i)) t ne a h = absurd (cc)

only_cell : (i : ℕ) → i < nb_cells one_cell.grid → i ≡ 0
only_cell i h = let h' : i < 1 = rw (one_cell-size) at h in omega arith

sim-IsWorld : IsWorld integers one_cell dust_alloc-IsAllocator heap1 used sim cells
unfolding elems
sim-IsWorld = record {
  contents = contents;
  valid = used-Valid;
  owned = contents-Owned;
  curs = λ i h. rw (only_cell i h) refl;
  nexts = λ i h. rw (only_cell i h) ((2, []) ∷ [], refl, refl);
  size_cur = rw (one_cell-size) refl;
  size_next = rw (one_cell-size) refl;
  size_deposit = rw (one_cell-size) refl;
  size_field = rw (one_cell-size) refl;
  clear = λ i h. rw (only_cell i h) refl;
}

one_cell-IsGrid : IsGrid one_cell.grid
one_cell-IsGrid = record { pos_x = omega arith; pos_y = omega arith; pos_z = omega arith }

one_cell-IsOrderedBox : IsOrderedBox integers one_cell
one_cell-IsOrderedBox = record {
  ordered_x = integers-IsOrdered 1 (omega arith);
  ordered_y = integers-IsOrdered 1 (omega arith);
  ordered_z = integers-IsOrdered 1 (omega arith);
}

abbrev copies : Array3 ℤ → Array3 ℤ × Array3 ℤ × Array3 ℤ
copies rho = (rho, rho, rho)

copies-IsSolver : IsSolver one_cell.grid copies
copies-IsSolver = record { whole_x = λ rho w. w; whole_y = λ rho w. w; whole_z = λ rho w. w }

step-IsWorld_example :
    Returns
      (λ sim' st'.
        (u' : Region) × (cells' : ℕ → Cells Dust) × IsWorld integers one_cell dust_alloc-IsAllocator
          st' u' sim' cells'
        × ((j : ℕ)
            → j < nb_cells one_cell.grid
            → Perm (elems (cells' j)) (
                located integers one_cell j
                  (arrivals integers one_cell sim.field cells (nb_cells one_cell.grid) 0 []))))
      (step integers one_cell dust_alloc 2 2 2 copies sim heap1)
step-IsWorld_example =
    step-IsWorld integers one_cell dust_alloc-IsAllocator 2 2 copies integers-IsExact
      one_cell-IsGrid one_cell-IsOrderedBox (omega arith) copies-IsSolver heap1 used sim cells
      sim-IsWorld (λ i h. (omega arith, unfold elems in omega arith))

step-particles_example :
    Returns
      (λ sim' st'.
        (u' : Region) × (cells' : ℕ → Cells Dust) × IsWorld integers one_cell dust_alloc-IsAllocator
          st' u' sim' cells'
        × (particles one_cell cells' ≡ particles one_cell cells))
      (step integers one_cell dust_alloc 2 2 2 copies sim heap1)
step-particles_example =
    step-particles integers one_cell dust_alloc-IsAllocator 2 2 copies integers-IsExact
      one_cell-IsGrid one_cell-IsOrderedBox (omega arith) copies-IsSolver heap1 used sim cells
      sim-IsWorld (λ i h. (omega arith, unfold elems in omega arith))
