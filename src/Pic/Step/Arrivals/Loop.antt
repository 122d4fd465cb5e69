-- ===== src/Pic/Step/Arrivals/Loop.antt =====
-- `step_cells`: all cells are swept, and `swap_cells`.
use mathlib.Core.Path.{subst}
use mathlib.Core.List.{foldl}
use optitrust.Prelude.{
  ℕ, suc, zero, ◌+◌, ◌<◌, ◌≤◌, ◌≡◌, refl, ◌∙◌, inl, inr, false, Bool-cases, Option, none, some,
  List, [], ◌∷◌, ◌==◌, arith, length, AllBelow, get_elem?-lt,
}
use optitrust.Reals.{Reals, IsExact}
use optitrust.Particle.{Vect, Particle}
use optitrust.Memory.{State}
use optitrust.Memory.Returns
use optitrust.Memory.Returns.{Returns, returns}
use optitrust.Memory.Allocator.{Allocator, IsAllocator, Region}
use optitrust.Bag.Chain.{Cells, elems}
use optitrust.Grid.{nb_cells, indices_of_corners}
use optitrust.Grid.Coords.{IsGrid}
use optitrust.Grid.Corners.{indices_of_corners-AllBelow}
use optitrust.Pic.{Parameters, Corners, read_all, get_field_at_corners}
use optitrust.Pic.Positions.{IsOrderedBox}
use optitrust.Pic.Bags.{Slot, cur}
use optitrust.Pic.Step.{Sim, step_cells}
use optitrust.Pic.Step.Arrivals.{Arrived, arrive, arrivals, corners_of}
use optitrust.Pic.Step.Arrivals.Sweep.{step_cell-Stepped}

read_back :
    {B : Type 0} (o : Option (List B)) {v : List B}
    → o ≡ some v
    → o ≡ some (elim o [ none ↦ [] | some w ↦ w ])
read_back none e = absurd (cc)
read_back (some w) e = refl

module _ {S Pool : Type 0} (R : Reals S) (p : Parameters S) {A : Allocator Pool (Particle S)}
    {capacity : ℕ} (L : IsAllocator A capacity) (rounds fuel : ℕ) (exact : IsExact R)
    (grid : IsGrid p.grid) (box : IsOrderedBox R p) (places : 0 < capacity) where
  read_all-some :
      {B : Type 0} (values : List B) (is : List ℕ)
      → AllBelow (length values) is
      → (vs : Corners B) × (read_all R p values is ≡ some vs)
  unfolding read_all
  read_all-some values [] below = ([], refl)
  read_all-some values (i ∷ is) (h, below) =
      let (v, e) = get_elem?-lt values i h in
      let (vs, es) = read_all-some values is below in (v ∷ vs, rw (e, es) refl)

  get_field-some :
      (field : List (Vect S)) (id_cell : ℕ)
      → id_cell < nb_cells p.grid
      → length field ≡ nb_cells p.grid
      → get_field_at_corners R p id_cell field ≡ some (corners_of R p field id_cell)
  unfolding get_field_at_corners
  get_field-some field id_cell h n =
      let (_, e) =
        read_all-some field (indices_of_corners p.grid id_cell)
          (rw n (indices_of_corners-AllBelow p.grid id_cell grid h)) in
      read_back (get_field_at_corners R p id_cell field) e

  -- The cells from `first` on hold `cells`, within the bounds of the loops; those before are empty.
  pub record Ahead (c : Slot → Option (Cells (Particle S))) (cells : ℕ → Cells (Particle S))
      (first : ℕ) : Type 0 where
    pub full :
        (i : ℕ)
        → first ≤ i
        → i < nb_cells p.grid
        → (c (cur i) ≡ some (cells i))
          × (length (cells i) < fuel)
          × (length (elems (cells i)) < rounds)
    pub empty :
        (i : ℕ) → i < first → (ds : Cells (Particle S)) × (c (cur i) ≡ some ds) × (elems ds ≡ [])

  Ahead-suc :
      (c c' : Slot → Option (Cells (Particle S))) (cells : ℕ → Cells (Particle S)) (first : ℕ)
      → Ahead c cells first
      → ((ds : Cells (Particle S)) × (c' (cur first) ≡ some ds) × (elems ds ≡ []))
      → ((i : ℕ) → (first == i) ≡ false → c' (cur i) ≡ c (cur i))
      → Ahead c' cells (first + 1)
  Ahead-suc c c' cells first a emptied others = record {
    full = λ i lo hi.
        (let (e, n, m) = a.full i (omega arith) hi in (others i (ground arith) ∙ e, n, m));
    empty = λ i h. elim (Bool-cases (first == i)) [
      | inl y ↦ (let e : first ≡ i = ground (arith, y) in rw e at emptied)
      | inr n ↦
          (let (ds, e, none_left) = a.empty i (ground (arith, n)) in
            (ds, others i n ∙ e, none_left))
    ];
  }

  pub record Swept (sim : Sim S) (cells : ℕ → Cells (Particle S)) (done : List (Particle S))
      (sim' : Sim S) (st' : State Pool (Particle S)) : Type 0 where
    pub region : Region
    pub after : Slot → Option (Cells (Particle S))
    pub valid : L.Valid st' region
    pub arrived : Arrived R p capacity st' region sim' after done
    pub ahead : Ahead after cells (nb_cells p.grid)
    pub same_field : sim'.field ≡ sim.field

  -- The arrivals of the cells behind `first`, when those of `first` are done.
  abbrev Ended :
      State Pool (Particle S)
      → Region
      → Sim S
      → (Slot → Option (Cells (Particle S)))
      → (ℕ → Cells (Particle S))
      → ℕ
      → ℕ
      → List (Particle S)
      → List (Particle S)
      → Corners (Vect S)
      → List (Vect S)
      → Type 0
  Ended st u sim c cells left first done qs fc field =
      Arrived R p capacity st u sim c
        (arrivals R p field cells left (first + 1) (foldl (arrive R p fc) done qs))

  pub step_cells-Swept :
      (left first : ℕ) (st : State Pool (Particle S)) (u : Region) (sim : Sim S)
      (c : Slot → Option (Cells (Particle S))) (cells : ℕ → Cells (Particle S))
      (done : List (Particle S))
      → first + left ≡ nb_cells p.grid
      → L.Valid st u
      → Arrived R p capacity st u sim c done
      → length sim.field ≡ nb_cells p.grid
      → Ahead c cells first
      → Returns
          (Swept sim cells (arrivals R p sim.field cells left first done))
          (step_cells R p A capacity rounds fuel left first sim st)
  unfolding step_cells
  step_cells-Swept zero first st u sim c cells done n v arr m a = returns (record {
    region = u;
    after = c;
    valid = v;
    arrived = arr;
    ahead = (let e : first ≡ nb_cells p.grid = omega arith in rw e at a);
    same_field = refl;
  })
  step_cells-Swept (suc left) first st u sim c cells done n v arr m a =
      let (e, chunks, particles) = a.full first (omega arith) (omega arith) in
      Returns.bind
        (step_cell-Stepped R p L rounds fuel exact grid box places st u sim c done first
          (cells first) _ v arr (omega arith) e (get_field-some sim.field first (omega arith) m)
          chunks particles)
        λ sim1 st1 s.
          Returns.mono
            (step_cells-Swept left (first + 1) st1 s.region sim1 s.after cells _ (omega arith)
              s.valid s.arrived (rw s.same_field m)
              (Ahead-suc c s.after cells first a s.emptied s.others))
            λ sim' st' w. record {
              region = w.region;
              after = w.after;
              valid = w.valid;
              arrived =
                  subst
                    (Ended st' w.region sim' w.after cells left first done (elems (cells first))
                      (corners_of R p sim.field first))
                    s.same_field w.arrived;
              ahead = w.ahead;
              same_field = w.same_field ∙ s.same_field;
            }
