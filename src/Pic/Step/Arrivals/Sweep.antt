-- ===== src/Pic/Step/Arrivals/Sweep.antt =====
-- `step_cell` and the loop over the cells.
use mathlib.Core.Path.{fun_ext, subst}
use mathlib.Core.List.{Perm, foldl}
use mathlib.Core.Option.{some-injective}
use optitrust.Prelude.{
  ℕ, ◌<◌, ◌≡◌, refl, sym, ap, ◌∙◌, inl, inr, true, false, Bool-cases, Option, none, some, List, [],
  ◌∷◌, ◌==◌, arith, length, length-set, get_elem?-set, set,
}
use optitrust.Reals.{Reals, IsExact}
use optitrust.Particle.{Vect, Particle}
use optitrust.Memory.{State}
use optitrust.Memory.Returns
use optitrust.Memory.Returns.{Returns, returns}
use optitrust.Memory.Allocator.{Allocator, IsAllocator, Region, SameOn, insert}
use optitrust.Bag.{Bag, bag_iter_destructive_begin}
use optitrust.Bag.Chain.{Cells, elems, has}
use optitrust.Bag.Shape.{IsBag, without}
use optitrust.Bag.Init.{bag_init-IsBag}
use optitrust.Bag.Iterate.Next.{begin-Yields}
use optitrust.Bag.Iterate.Fold.{ho_loop_inv, left_of-ahead, left_of-Apart}
use optitrust.Grid.{nb_cells}
use optitrust.Grid.Coords.{IsGrid}
use optitrust.Pic.{Parameters, Corners, get_field_at_corners}
use optitrust.Pic.Positions.{IsOrderedBox}
use optitrust.Pic.Deposit.{total}
use optitrust.Pic.Bags.{Slot, cur, next, upd, upd-here, upd-there, Owned, Owned-upd}
use optitrust.Pic.Step.{Sim, move_particle, step_cell}
use optitrust.Pic.Step.Arrivals.{bag_at, Arrived, arrive, located, units}
use optitrust.Pic.Step.Arrivals.Cell.{Moving, Moving-same, move_particle-Moving}

upd-same : {B : Type 0} (f : Slot → B) (s t : Slot) → upd s (f s) f t ≡ f t
upd-same f (cur i) (cur j) = elim (Bool-cases (i == j)) [
  | inl y ↦ let e : i ≡ j = ground (arith, y) in rw y (ap (λ k. f (cur k)) e)
  | inr n ↦ rw n refl
]
upd-same f (cur i) (next j) = refl
upd-same f (next i) (cur j) = refl
upd-same f (next i) (next j) = elim (Bool-cases (i == j)) [
  | inl y ↦ let e : i ≡ j = ground (arith, y) in rw y (ap (λ k. f (next k)) e)
  | inr n ↦ rw n refl
]

bag_at-set_cur :
    {S : Type 0} (sim : Sim S) (k : ℕ) (b : Bag) (s : Slot)
    → k < length sim.bags_cur
    → upd (cur k) (some b) (bag_at sim) s
      ≡ bag_at (record sim { bags_cur = set sim.bags_cur k b }) s
bag_at-set_cur sim k b (cur j) h = sym (get_elem?-set sim.bags_cur k j b h)
bag_at-set_cur sim k b (next j) h = refl

module _ {Pool P : Type 0} (capacity : ℕ) (st : State Pool P) (u : Region) (at : Slot → Option Bag)
    (c : Slot → Option (Cells P)) (s : Slot) (o : Owned capacity st u at c) where
  -- The bag at `s` is given up.
  Owned-without :
      (cs : Cells P) → c s ≡ some cs → Owned capacity st (without cs u) at (upd s none c)
  Owned-without cs e =
      subst (λ w. Owned capacity st (without cs u) w (upd s none c)) (fun_ext (upd-same at s))
        (Owned-upd capacity st st u (without cs u) at c s (at s) none o (λ ds f. absurd (cc))
          (λ a ia out.
            (refl, (let out' : has a cs ≡ false = rw e at out in ground (arith, out', ia))))
          (λ a h. absurd (cc)))

  -- A new bag of one chunk stands at `s`, where none was.
  Owned-new :
      (b : Bag) (st' : State Pool P)
      → c s ≡ none
      → u b.front ≡ false
      → SameOn u st st'
      → IsBag capacity st' (insert b.front u) b ((b.front, []) ∷ [])
      → Owned capacity st'
          (insert b.front u)
          (upd s (some b) at)
          (upd s (some ((b.front, []) ∷ [])) c)
  Owned-new b st' dead new same is =
      Owned-upd capacity st st' u (insert b.front u) at c s (some b) (some ((b.front, []) ∷ [])) o
        (λ ds f.
          (b, refl, subst (IsBag capacity st' (insert b.front u) b) (some-injective _ _ f) is))
        (λ a ia out. (same a ia, ground (arith, ia)))
        (λ a h. inr (let e : b.front ≡ a = ground (arith, h) in sym (ap u e) ∙ new))

module _ {S Pool : Type 0} (R : Reals S) (p : Parameters S) {A : Allocator Pool (Particle S)}
    {capacity : ℕ} (L : IsAllocator A capacity) (rounds fuel : ℕ) (exact : IsExact R)
    (grid : IsGrid p.grid) (box : IsOrderedBox R p) (places : 0 < capacity) where
  -- After the cell `id_cell`, whose bag held `cs`.
  pub record Stepped (sim : Sim S) (c : Slot → Option (Cells (Particle S)))
      (done : List (Particle S)) (id_cell : ℕ) (sim' : Sim S) (st' : State Pool (Particle S))
      : Type 0 where
    pub region : Region
    pub after : Slot → Option (Cells (Particle S))
    pub valid : L.Valid st' region
    pub arrived : Arrived R p capacity st' region sim' after done
    pub emptied : (ds : Cells (Particle S)) × (after (cur id_cell) ≡ some ds) × (elems ds ≡ [])
    pub others : (i : ℕ) → (id_cell == i) ≡ false → after (cur i) ≡ c (cur i)
    pub same_field : sim'.field ≡ sim.field

  -- The new empty bag of the cell.
  stepped :
      (st2 st3 : State Pool (Particle S)) (left : Region) (sim s : Sim S)
      (c dead : Slot → Option (Cells (Particle S))) (final : List (Particle S)) (id_cell : ℕ)
      (b : Bag) (fc : Corners (Vect S))
      → dead ≡ upd (cur id_cell) none c
      → Moving R p capacity fc sim dead final left s [] st2
      → id_cell < nb_cells p.grid
      → left b.front ≡ false
      → IsBag capacity st3 (insert b.front left) b ((b.front, []) ∷ [])
      → L.Valid st3 (insert b.front left)
      → SameOn left st2 st3
      → Stepped sim c final id_cell (record s { bags_cur = set s.bags_cur id_cell b }) st3
  unfolding elems
  stepped st2 st3 left sim s c dead final id_cell b fc d m h new is v same =
      let a = m.arrived in
      let alive = upd (cur id_cell) (some ((b.front, []) ∷ [])) m.at in
      record {
        region = insert b.front left;
        after = alive;
        valid = v;
        arrived = record {
          owned =
              subst (λ w. Owned capacity st3 (insert b.front left) w alive)
                (fun_ext λ t. bag_at-set_cur s id_cell b t (rw a.size_cur h))
                (Owned-new capacity st2 left (bag_at s) m.at (cur id_cell) a.owned b st3
                  (m.curs id_cell ∙ ap (λ f. f (cur id_cell)) d ∙ upd-here (cur id_cell) none c) new
                  same is);
          nexts = λ j hj.
              (let (ds, e, perm) = a.nexts j hj in
                (ds, e, subst (λ qs. Perm (elems ds) (located R p j qs)) m.rest perm));
          size_cur = length-set s.bags_cur id_cell b ∙ a.size_cur;
          size_next = a.size_next;
          size_deposit = a.size_deposit;
          charge = subst (λ qs. total R s.deposit ≡ units R p (length qs)) m.rest a.charge;
        };
        emptied = ((b.front, []) ∷ [], upd-here (cur id_cell) _ m.at, refl);
        others = λ i ne.
            rw ne (m.curs i ∙ ap (λ f. f (cur i)) d ∙ upd-there (cur id_cell) (cur i) none c ne);
        same_field = m.same_field;
      }

  pub step_cell-Stepped :
      (st : State Pool (Particle S)) (u : Region) (sim : Sim S)
      (c : Slot → Option (Cells (Particle S))) (done : List (Particle S)) (id_cell : ℕ)
      (cs : Cells (Particle S)) (fc : Corners (Vect S))
      → L.Valid st u
      → Arrived R p capacity st u sim c done
      → id_cell < nb_cells p.grid
      → c (cur id_cell) ≡ some cs
      → get_field_at_corners R p id_cell sim.field ≡ some fc
      → length cs < fuel
      → length (elems cs) < rounds
      → Returns
          (Stepped sim c (foldl (arrive R p fc) done (elems cs)) id_cell)
          (step_cell R p A capacity rounds fuel id_cell sim st)
  unfolding step_cell bag_iter_destructive_begin
  step_cell-Stepped st u sim c done id_cell cs fc v arr h e at_corners enough bound =
      let (b, here, is) = arr.owned.bags (cur id_cell) cs e in
      let final = foldl (arrive R p fc) done (elems cs) in
      let left = without cs u in
      let dead = upd (cur id_cell) none c in
      let started : Moving R p capacity fc sim dead final left sim (elems cs) st = record {
        at = dead;
        done = done;
        arrived = record {
          owned = Owned-without capacity st u (bag_at sim) c (cur id_cell) arr.owned cs e;
          nexts = arr.nexts;
          size_cur = arr.size_cur;
          size_next = arr.size_next;
          size_deposit = arr.size_deposit;
          charge = arr.charge;
        };
        rest = refl;
        curs = λ i. refl;
        same_cur = refl;
        same_field = refl;
      } in
      rw (at_corners, here)
        (Returns.bind
          (begin-Yields L fuel true left st b.back is.chain is.room
            (left_of-Apart true cs u is.owned) (rw (left_of-ahead true cs u is.owned) v) enough)
          λ (it, r) st1 (y, same).
            Returns.bind
              (ho_loop_inv L fuel true (move_particle R p A capacity fc)
                (Moving R p capacity fc sim dead final)
                (move_particle-Moving R p L fuel exact grid box fc sim dead final)
                (Moving-same R p capacity fc sim dead final) rounds left st1 (elems cs) it r sim
                bound y
                (Moving-same R p capacity fc sim dead final left sim (elems cs) st st1 started
                  same))
              λ s' st2 (left', v2, m).
                Returns.bind (bag_init-IsBag L st2 left' places v2) λ b' st3 (new, isb, v3, same3).
                  returns (
                    stepped st2 st3 left' sim s' c dead final id_cell b' fc refl m h new isb v3
                      same3))
