-- ===== src/Pic/Step/Whole.antt =====
-- `step`: from one state of the simulation to the next.
use mathlib.Core.Option.{some-injective}
use mathlib.Core.List.{Perm}
use mathlib.Core.List.Perm
use optitrust.Prelude.{
  ℕ, suc, ◌<◌, ◌≡◌, refl, ap, ◌∙◌, Option, none, some, List, [], ◌∷◌, arith, length, get_elem?,
}
use optitrust.Reals.{Reals, zero_real, IsExact}
use optitrust.Particle.{Vect, Particle}
use optitrust.Memory.{State}
use optitrust.Memory.Returns
use optitrust.Memory.Returns.{Returns, returns}
use optitrust.Memory.Allocator.{Allocator, IsAllocator, Region}
use optitrust.Bag.Chain.{Cells, elems}
use optitrust.Grid.{nb_cells}
use optitrust.Grid.Coords.{IsGrid}
use optitrust.Pic.{Parameters}
use optitrust.Pic.Bags.{Slot, cur, next, Owned}
use optitrust.Pic.Deposit.{total}
use optitrust.Pic.Field.{Array3}
use optitrust.Pic.Field.Arrays.{IsSolver, update_field_using_deposit-lem}
use optitrust.Pic.Positions.{IsOrderedBox}
use optitrust.Pic.Step.{Sim, step}
use optitrust.Pic.Step.Arrivals.{bag_at, arrivals, located, Arrived}
use optitrust.Pic.Step.Arrivals.Loop.{Swept, step_cells-Swept}
use optitrust.Pic.Step.Swap.{flip, Owned-flip, swap_cells-flip}

module _ {S Pool : Type 0} (R : Reals S) (p : Parameters S) {A : Allocator Pool (Particle S)}
    {capacity : ℕ} (L : IsAllocator A capacity) where
  -- Between two steps: `cells i` are the chunks of `bagsCur[i]`, the bags of `bagsNext` are empty, no
  -- chunk is in two bags, and the deposit is zero.
  pub record IsWorld (st : State Pool (Particle S)) (u : Region) (sim : Sim S)
      (cells : ℕ → Cells (Particle S)) : Type 0 where
    pub contents : Slot → Option (Cells (Particle S))
    pub valid : L.Valid st u
    pub owned : Owned capacity st u (bag_at sim) contents
    pub curs : (i : ℕ) → i < nb_cells p.grid → contents (cur i) ≡ some (cells i)
    pub nexts :
        (i : ℕ)
        → i < nb_cells p.grid
        → (ds : Cells (Particle S)) × (contents (next i) ≡ some ds) × (elems ds ≡ [])
    pub size_cur : length sim.bags_cur ≡ nb_cells p.grid
    pub size_next : length sim.bags_next ≡ nb_cells p.grid
    pub size_deposit : length sim.deposit ≡ nb_cells p.grid
    pub size_field : length sim.field ≡ nb_cells p.grid
    pub clear : (i : ℕ) → i < nb_cells p.grid → get_elem? sim.deposit i ≡ some (zero_real R)

  total-zero :
      (exact : IsExact R) (d : List S)
      → ((i : ℕ) → i < length d → get_elem? d i ≡ some (zero_real R))
      → total R d ≡ zero_real R
  total-zero exact [] z = refl
  total-zero exact (x ∷ xs) z =
      let here = some-injective _ _ (z 0 (omega arith)) in
      let rest = total-zero exact xs (λ i h. z (suc i) (omega arith)) in
      ap (λ y. R.add y (total R xs)) here ∙ ap (R.add (zero_real R)) rest ∙ exact.add_zero _

  IsWorld-Arrived :
      (st : State Pool (Particle S)) (u : Region) (sim : Sim S) (cells : ℕ → Cells (Particle S))
      (exact : IsExact R) (w : IsWorld st u sim cells)
      → Arrived R p capacity st u sim w.contents []
  IsWorld-Arrived st u sim cells exact w = record {
    owned = w.owned;
    nexts = λ j h. (let (ds, e, empty) = w.nexts j h in (ds, e, rw empty (Perm.refl [])));
    size_cur = w.size_cur;
    size_next = w.size_next;
    size_deposit = w.size_deposit;
    charge = total-zero exact sim.deposit λ i h. w.clear i (rw (← w.size_deposit) h);
  }

  -- The chunks of a bag of the family.
  abbrev chunks_of : Option (Cells (Particle S)) → Cells (Particle S)
  chunks_of none = []
  chunks_of (some cs) = cs

  chunks_of-some :
      (o : Option (Cells (Particle S))) {ds : Cells (Particle S)}
      → o ≡ some ds
      → o ≡ some (chunks_of o)
  chunks_of-some none e = absurd (cc)
  chunks_of-some (some cs) e = refl

  Swept-IsWorld :
      (rounds fuel : ℕ) (exact : IsExact R) (grid : IsGrid p.grid) (box : IsOrderedBox R p)
      (places : 0 < capacity) (st : State Pool (Particle S)) (sim : Sim S)
      (cells : ℕ → Cells (Particle S)) (done : List (Particle S)) (sim1 sim2 : Sim S)
      (field : List (Vect S)) (deposit : List S)
      (s : Swept R p L rounds fuel exact grid box places sim cells done sim1 st)
      → length sim2.bags_cur ≡ nb_cells p.grid
      → length sim2.bags_next ≡ nb_cells p.grid
      → ((t : Slot) → bag_at sim2 t ≡ bag_at sim1 (flip t))
      → length field ≡ nb_cells p.grid
      → length deposit ≡ nb_cells p.grid
      → ((i : ℕ) → i < nb_cells p.grid → get_elem? deposit i ≡ some (zero_real R))
      → IsWorld st s.region
          (record sim2 { field = field; deposit = deposit })
          (λ j. chunks_of (s.after (next j)))
  Swept-IsWorld rounds fuel exact grid box places st sim cells done sim1 sim2 field deposit s hc hn
        swapped size_f size_d zeros =
      let a = s.arrived in
      record {
        contents = λ t. s.after (flip t);
        valid = s.valid;
        owned =
            Owned-flip capacity st s.region (bag_at sim1)
              (bag_at (record sim2 { field = field; deposit = deposit })) s.after (λ t. same_bags t)
              a.owned;
        curs = λ i h. (let (ds, e, _) = a.nexts i h in chunks_of-some (s.after (next i)) e);
        nexts = λ i h. s.ahead.empty i h;
        size_cur = hc;
        size_next = hn;
        size_deposit = size_d;
        size_field = size_f;
        clear = zeros;
      }
    where
      same_bags :
          (t : Slot)
          → bag_at (record sim2 { field = field; deposit = deposit }) t ≡ bag_at sim1 (flip t)
      same_bags (cur i) = swapped (cur i)
      same_bags (next i) = swapped (next i)

  module _ (rounds fuel : ℕ) (poisson : Array3 S → Array3 S × Array3 S × Array3 S)
      (exact : IsExact R) (grid : IsGrid p.grid) (box : IsOrderedBox R p) (places : 0 < capacity)
      (solver : IsSolver p.grid poisson) where
    -- With exact arithmetic, on a grid with a cell, with chunks of at least one place, a solver that
    -- gives whole arrays and enough fuel for every bag: a step returns, from a state between two steps
    -- to a state between two steps. Every bag then holds, in some order, exactly the particles of all
    -- cells that have moved into its cell.
    pub step-IsWorld :
        (st : State Pool (Particle S)) (u : Region) (sim : Sim S) (cells : ℕ → Cells (Particle S))
        → IsWorld st u sim cells
        → ((i : ℕ)
            → i < nb_cells p.grid
            → (length (cells i) < fuel) × (length (elems (cells i)) < rounds))
        → Returns
            (λ sim' st'.
              (u' : Region) × (cells' : ℕ → Cells (Particle S)) × IsWorld st' u' sim' cells'
              × ((j : ℕ)
                  → j < nb_cells p.grid
                  → Perm
                      (elems (cells' j))
                      (located R p j (arrivals R p sim.field cells (nb_cells p.grid) 0 []))))
            (step R p A capacity rounds fuel poisson sim st)
    unfolding step
    step-IsWorld st u sim cells w enough =
        Returns.bind
          (step_cells-Swept R p L rounds fuel exact grid box places (nb_cells p.grid) 0 st u sim
            w.contents cells [] (omega arith) w.valid (IsWorld-Arrived st u sim cells exact w)
            w.size_field
            (record {
              full = λ i lo hi. (let (n, m) = enough i hi in (w.curs i hi, n, m));
              empty = λ i h. absurd (omega arith);
            }))
          λ sim1 st1 s.
            let a = s.arrived in
            let (sim2, run, hc, hn, same_d, same_f, swapped) =
              swap_cells-flip R p A capacity (nb_cells p.grid) sim1 st1 a.size_cur a.size_next in
            let (field', deposit', solved, size_f, size_d, zeros) =
              update_field_using_deposit-lem R p poisson sim2.deposit sim2.field solver
                (rw same_d a.size_deposit) (rw same_f (rw s.same_field w.size_field)) in
            rw (run, solved)
              (returns (
                s.region,
                (λ j. chunks_of (s.after (next j))),
                Swept-IsWorld rounds fuel exact grid box places st1 sim cells _ sim1 sim2 field'
                    deposit' s hc hn swapped size_f size_d zeros,
                λ j h. (let (ds, e, perm) = a.nexts j h in rw e perm),
              ))
