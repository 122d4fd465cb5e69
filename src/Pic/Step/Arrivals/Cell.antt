-- ===== src/Pic/Step/Arrivals/Cell.antt =====
-- `step_cell`: every particle of a cell is moved and placed, the chunks of the cell are given back, and
-- the cell gets a new empty bag.
use mathlib.Core.Path.{fun_ext, subst}
use mathlib.Core.List.{foldl}
use optitrust.Prelude.{
  ℕ, ◌<◌, ◌≡◌, sym, ap, ◌∙◌, ◌⊎◌, inl, inr, Bool, true, false, Bool-cases, true≢false, Option, List,
  ◌∷◌, ◌==◌, arith,
}
use optitrust.Prelude.Int.{pos}
use optitrust.Reals.{Reals, IsExact}
use optitrust.Particle.{Vect, Particle}
use optitrust.Memory.{Ptr, State, cell}
use optitrust.Memory.Returns
use optitrust.Memory.Returns.{Returns, returns}
use optitrust.Memory.Allocator.{Allocator, IsAllocator, Region, SameOn}
use optitrust.Bag.{Bag, Iter, bag_iter_item}
use optitrust.Bag.Chain.{Cells, has, Holds-same, Seg-same}
use optitrust.Bag.Iterate.{ahead, Current}
use optitrust.Bag.Iterate.Fold.{Current-item}
use optitrust.Grid.{nb_cells}
use optitrust.Grid.Coords.{IsGrid}
use optitrust.Pic.{Parameters, Corners, id_cell_of_pos}
use optitrust.Pic.Positions.{IsOrderedBox, id_cell_of_pos-wrap_area}
use optitrust.Pic.Bags.{Slot, cur, Owned, IsBag-same}
use optitrust.Pic.Step.{Sim, moved, move_particle}
use optitrust.Pic.Step.Arrivals.{bag_at, Arrived, arrive}
use optitrust.Pic.Step.Arrivals.Place.{grown, place-Placed}

pub Owned-same :
    {Pool P : Type 0} (capacity : ℕ) (st st' : State Pool P) (u : Region) (at : Slot → Option Bag)
    (c : Slot → Option (Cells P))
    → SameOn u st st'
    → Owned capacity st u at c
    → Owned capacity st' u at c
Owned-same capacity st st' u at c same o = record {
  bags = λ s cs e.
      (let (b, here, is) = o.bags s cs e in
        (
          b,
          here,
          IsBag-same capacity st st' u u b cs is λ a i. (same a (is.owned a i), is.owned a i),
        ));
  apart = o.apart;
}

module _ {Pool P : Type 0} {A : Allocator Pool P} {capacity : ℕ} (L : IsAllocator A capacity)
    (fuel : ℕ) where
  -- An iteration is not disturbed by a push to a bag in the region that will be left.
  Current-grown :
      (left : Region) (st st' : State Pool P) (it : Iter) (x : P) (xs : List P) (more : Bool)
      (at : Ptr) (k : Current L fuel true left st it x xs)
      → (more ≡ true → ahead true left ((it.iter_chunk, k.within) ∷ k.cs) at ≡ false)
      → L.Valid st' (grown more at (ahead true left ((it.iter_chunk, k.within) ∷ k.cs)))
      → ((a : Ptr)
          → ahead true left ((it.iter_chunk, k.within) ∷ k.cs) a ≡ true
          → left a ≡ false
          → cell st'.heap a ≡ cell st.heap a)
      → Current L fuel true (grown more at left) st' it x xs
  Current-grown left st st' it x xs more at k new valid same = record {
    next = k.next;
    within = k.within;
    behind = k.behind;
    cs = k.cs;
    mode = k.mode;
    holds = Holds-same k.holds (spared it.iter_chunk (ground arith));
    out = k.out;
    chain = Seg-same k.chain λ a i. spared a (ground (arith, i));
    size = k.size;
    here = k.here;
    to_come = k.to_come;
    apart = λ a i. kept a i (Bool-cases more);
    valid = subst (L.Valid st') (fun_ext λ a. ground arith) valid;
    enough = k.enough;
  }
    where
      spared :
          (a : Ptr)
          → has a ((it.iter_chunk, k.within) ∷ k.cs) ≡ true
          → cell st'.heap a ≡ cell st.heap a
      spared a i = same a (ground (arith, i)) (k.apart a i)

      kept :
          (a : Ptr)
          → has a ((it.iter_chunk, k.within) ∷ k.cs) ≡ true
          → (more ≡ true) ⊎ (more ≡ false)
          → grown more at left a ≡ false
      kept a i (inl y) = elim (Bool-cases (at == a)) [
        | inl here ↦
            let e : at ≡ a = ground (arith, here) in
            let inside : ahead true left ((it.iter_chunk, k.within) ∷ k.cs) a ≡ true =
              ground (arith, i) in
            absurd (
              true≢false (
                sym inside
                ∙ sym (ap (ahead true left ((it.iter_chunk, k.within) ∷ k.cs)) e)
                ∙ new y))
        | inr other ↦ rw (y, other) (k.apart a i)
      ]
      kept a i (inr n) = rw n (k.apart a i)

module _ {S : Type 0} (R : Reals S) (p : Parameters S) (capacity : ℕ) where
  module _ (fc : Corners (Vect S)) (sim : Sim S) (c : Slot → Option (Cells (Particle S)))
      (final : List (Particle S)) where
    -- What holds while the particles `xs` of the cell are still to come.
    pub record Moving {Pool : Type 0} (left : Region) (s : Sim S) (xs : List (Particle S))
        (st : State Pool (Particle S)) : Type 0 where
      pub at : Slot → Option (Cells (Particle S))
      pub done : List (Particle S)
      pub arrived : Arrived R p capacity st left s at done
      pub rest : foldl (arrive R p fc) done xs ≡ final
      pub curs : (i : ℕ) → at (cur i) ≡ c (cur i)
      pub same_cur : s.bags_cur ≡ sim.bags_cur
      pub same_field : s.field ≡ sim.field

    pub Moving-same :
        {Pool : Type 0} (left : Region) (s : Sim S) (xs : List (Particle S))
        (st st' : State Pool (Particle S))
        → Moving left s xs st
        → SameOn left st st'
        → Moving left s xs st'
    Moving-same left s xs st st' m same =
        let a = m.arrived in
        record {
          at = m.at;
          done = m.done;
          arrived = record {
            owned = Owned-same capacity st st' left (bag_at s) m.at same a.owned;
            nexts = a.nexts;
            size_cur = a.size_cur;
            size_next = a.size_next;
            size_deposit = a.size_deposit;
            charge = a.charge;
          };
          rest = m.rest;
          curs = m.curs;
          same_cur = m.same_cur;
          same_field = m.same_field;
        }

module _ {S Pool : Type 0} (R : Reals S) (p : Parameters S) {A : Allocator Pool (Particle S)}
    {capacity : ℕ} (L : IsAllocator A capacity) (fuel : ℕ) (exact : IsExact R)
    (grid : IsGrid p.grid) (box : IsOrderedBox R p) where
  moved-cell :
      (fc : Corners (Vect S)) (q : Particle S)
      → (k : ℕ) × (id_cell_of_pos R p (moved R p fc q).pos ≡ pos k) × (k < nb_cells p.grid)
  unfolding moved
  moved-cell fc q = let (c, _, here, h) = id_cell_of_pos-wrap_area R p _ box in (_, here, h)

  module _ (fc : Corners (Vect S)) (sim : Sim S) (c : Slot → Option (Cells (Particle S)))
      (final : List (Particle S)) where
    pub move_particle-Moving :
        (left : Region) (st : State Pool (Particle S)) (it : Iter) (x : Particle S)
        (xs : List (Particle S)) (s : Sim S)
        → Current L fuel true left st it x xs
        → Moving R p capacity fc sim c final left s (x ∷ xs) st
        → Returns
            (λ s' st'.
              (left' : Region) × Current L fuel true left' st' it x xs
              × Moving R p capacity fc sim c final left' s' xs st')
            (move_particle R p A capacity fc (bag_iter_item it) s st)
    unfolding move_particle
    move_particle-Moving left st it x xs s k m =
        let (j, here, h) = moved-cell fc x in
        let all = ahead true left ((it.iter_chunk, k.within) ∷ k.cs) in
        rw (Current-item L fuel true left st it x xs k) (
          Returns.mono
            (place-Placed R p L st all left s m.at m.done (moved R p fc x) j exact grid k.valid
              (λ a i. ground (arith, i)) m.arrived here h)
            λ s' st' w. (
              grown w.more w.at left,
              Current-grown L fuel left st st' it x xs w.more w.at k w.new w.valid w.same,
              record {
                at = w.after;
                done = moved R p fc x ∷ m.done;
                arrived = w.arrived;
                rest = m.rest;
                curs = λ i. w.curs i ∙ m.curs i;
                same_cur = w.same_cur ∙ m.same_cur;
                same_field = w.same_field ∙ m.same_field;
              },
            ))
