-- ===== src/Pic/Step/Arrivals/Place.antt =====
-- `place`: a particle goes to the bag of its cell, and its charge to the corners of the cell.
use mathlib.Core.Path.{fun_ext, subst}
use mathlib.Core.List.{Perm}
use mathlib.Core.List.Perm
use mathlib.Core.Option.{some-injective}
use optitrust.Prelude.{
  ℕ, ◌+◌, ◌<◌, ◌≡◌, refl, sym, ap, ◌∙◌, ◌⊎◌, inl, inr, Bool, true, false, Bool-cases, true≢false,
  ◌&&◌, ◌||◌, Option, some, List, [], ◌∷◌, ◌==◌, arith, if◌then◌else◌, length, length-set,
  get_elem?-set, set,
}
use optitrust.Prelude.Int.{pos}
use optitrust.Reals.{Reals, one_real, IsExact}
use optitrust.Particle.{Particle}
use optitrust.Memory.{Ptr, State, cell}
use optitrust.Memory.Returns
use optitrust.Memory.Returns.{Returns, returns}
use optitrust.Memory.Allocator.{Allocator, IsAllocator, Region, insert}
use optitrust.Bag.{Bag}
use optitrust.Bag.Chain.{Cells, elems, has}
use optitrust.Bag.Shape.{IsBag}
use optitrust.Bag.Push.{Pushed, pushed, pushed-elems, fills, bag_push-Pushed}
use optitrust.Grid.{nb_cells}
use optitrust.Grid.Coords.{IsGrid}
use optitrust.Pic.{Parameters, id_cell_of_pos}
use optitrust.Pic.Bags.{Slot, cur, next, upd, Owned, Owned-upd, IsBag-same}
use optitrust.Pic.Deposit.{accumulate_charge_at_corners-Deposited}
use optitrust.Pic.Step.{Sim, place}
use optitrust.Pic.Step.Arrivals.{bag_at, located, Arrived}

-- A region with one more chunk, or as it was.
abbrev pub grown : Bool → Ptr → Region → Region
grown e q u a = if e then insert q u a else u a

pushed-has :
    {P : Type 0} (capacity : ℕ) (q : Ptr) (x : P) (cs : Cells P) (a : Ptr)
    → has a (pushed capacity q x cs) ≡ ((fills capacity cs && (q == a)) || has a cs)
pushed-has capacity q x [] a = refl
pushed-has capacity q x ((p, xs) ∷ cs) a = elim (Bool-cases (length xs + 1 == capacity)) [
  | inl full ↦ rw (full) (ground arith)
  | inr more ↦ rw (more) (ground arith)
]

bag_at-set :
    {S : Type 0} (sim : Sim S) (k : ℕ) (b : Bag) (d : List S) (s : Slot)
    → k < length sim.bags_next
    → upd (next k) (some b) (bag_at sim) s
      ≡ bag_at (record sim { bags_next = set sim.bags_next k b; deposit = d }) s
bag_at-set sim k b d (cur i) h = refl
bag_at-set sim k b d (next j) h = sym (get_elem?-set sim.bags_next k j b h)

module _ {P Pool : Type 0} {A : Allocator Pool P} {capacity : ℕ} (L : IsAllocator A capacity)
    (st : State Pool P) (all u : Region) (b : Bag) (q : P) (ds : Cells P) (b' : Bag)
    (st' : State Pool P) (within : (a : Ptr) → u a ≡ true → all a ≡ true)
    (is : IsBag capacity st u b ds) (m : Pushed L st all b q ds b' st') where
  abbrev wider : Region
  wider = grown (fills capacity ds) b'.front u

  pushed-owned : (a : Ptr) → has a (pushed capacity b'.front q ds) ≡ true → wider a ≡ true
  pushed-owned a i =
      let i' : ((fills capacity ds && (b'.front == a)) || has a ds) ≡ true =
        sym (pushed-has capacity b'.front q ds a) ∙ i in
      ground (arith, i', is.owned a)

  pushed-fresh :
      (a : Ptr) → has a (pushed capacity b'.front q ds) ≡ true → (has a ds ≡ true) ⊎ (u a ≡ false)
  pushed-fresh a i = elim (Bool-cases (has a ds)) [
    | inl y ↦ inl y
    | inr out ↦
        let i' : ((fills capacity ds && (b'.front == a)) || has a ds) ≡ true =
          sym (pushed-has capacity b'.front q ds a) ∙ i in
        let full : fills capacity ds ≡ true = ground (arith, i', out) in
        let at_a : b'.front ≡ a = ground (arith, i', out) in
        let unused : all a ≡ false = sym (ap all at_a) ∙ m.new full in
        inr (elim (Bool-cases (u a)) [
          | inl used ↦ absurd (true≢false (sym (within a used) ∙ unused))
          | inr n ↦ n
        ])
  ]

  -- A push to one bag of a family.
  push-Owned :
      (at : Slot → Option Bag) (c : Slot → Option (Cells P)) (s : Slot)
      → Owned capacity st u at c
      → c s ≡ some ds
      → Owned capacity st' wider
          (upd s (some b') at)
          (upd s (some (pushed capacity b'.front q ds)) c)
  push-Owned at c s o e =
      Owned-upd capacity st st' u wider at c s (some b') (some (pushed capacity b'.front q ds)) o
        (λ cs e'. (
          b',
          refl,
          subst (IsBag capacity st' wider b') (some-injective _ _ e') (
              IsBag-same capacity st' st' m.region wider b' _ m.bag
                λ a i. (refl, pushed-owned a i)),
        ))
        (λ a ia out. (
          m.same a (let out' : has a ds ≡ false = rw e at out in ground (arith, out', within a ia)),
          ground (arith, ia),
        ))
        (λ a i. rw e (pushed-fresh a i))

module _ {S Pool : Type 0} (R : Reals S) (p : Parameters S) {A : Allocator Pool (Particle S)}
    {capacity : ℕ} (L : IsAllocator A capacity) where
  -- The particle `q` has arrived. `all` is the region of the allocator, `u` that of the bags.
  pub record Placed (st : State Pool (Particle S)) (all u : Region) (sim : Sim S)
      (c : Slot → Option (Cells (Particle S))) (done : List (Particle S)) (q : Particle S)
      (sim' : Sim S) (st' : State Pool (Particle S)) : Type 0 where
    pub more : Bool
    pub at : Ptr
    pub after : Slot → Option (Cells (Particle S))
    pub new : more ≡ true → all at ≡ false
    pub valid : L.Valid st' (grown more at all)
    pub arrived : Arrived R p capacity st' (grown more at u) sim' after (q ∷ done)
    pub same : (a : Ptr) → all a ≡ true → u a ≡ false → cell st'.heap a ≡ cell st.heap a
    pub curs : (i : ℕ) → after (cur i) ≡ c (cur i)
    pub same_cur : sim'.bags_cur ≡ sim.bags_cur
    pub same_field : sim'.field ≡ sim.field

  located-pushed :
      (k j : ℕ) (q : Particle S) (done : List (Particle S)) (c : Slot → Option (Cells (Particle S)))
      (ds : Cells (Particle S)) (f : Ptr)
      → id_cell_of_pos R p q.pos ≡ pos k
      → c (next k) ≡ some ds
      → Perm (elems (pushed capacity f q ds)) (q ∷ elems ds)
      → ((es : Cells (Particle S)) × (c (next j) ≡ some es) × Perm (elems es) (located R p j done))
      → (es : Cells (Particle S)) × (upd (next k) (some (pushed capacity f q ds)) c (next j)
          ≡ some es)
        × Perm (elems es) (located R p j (q ∷ done))
  located-pushed k j q done c ds f here e perm (es, e', perm') = elim (Bool-cases (k == j)) [
    | inl y ↦
        let k_j : k ≡ j = ground (arith, y) in
        let same : ds ≡ es = some-injective _ _ (sym e ∙ ap (λ i. c (next i)) k_j ∙ e') in
        rw (here, y) (pushed capacity f q ds, refl, Perm.trans perm (Perm.cons q (rw same perm')))
    | inr other ↦ rw (here, other) (es, e', perm')
  ]

  pub place-Placed :
      (st : State Pool (Particle S)) (all u : Region) (sim : Sim S)
      (c : Slot → Option (Cells (Particle S))) (done : List (Particle S)) (q : Particle S) (k : ℕ)
      → IsExact R
      → IsGrid p.grid
      → L.Valid st all
      → ((a : Ptr) → u a ≡ true → all a ≡ true)
      → Arrived R p capacity st u sim c done
      → id_cell_of_pos R p q.pos ≡ pos k
      → k < nb_cells p.grid
      → Returns (Placed st all u sim c done q) (place R p A capacity q sim st)
  unfolding place
  place-Placed st all u sim c done q k exact grid v within arr here h =
      let (ds, e, perm) = arr.nexts k h in
      let (b, at_k, is) = arr.owned.bags (next k) ds e in
      let is_all =
        IsBag-same capacity st st u all b ds is (λ a i. (refl, within a (is.owned a i))) in
      let (d', e_d, size_d, sum_d) =
        accumulate_charge_at_corners-Deposited R exact p sim.deposit k q.pos grid h
          arr.size_deposit in
      rw (here, at_k)
        (Returns.bind (bag_push-Pushed L st all b q ds v is_all) λ b' st' m. rw (e_d) (
          returns (record {
            more = fills capacity ds;
            at = b'.front;
            after = upd (next k) (some (pushed capacity b'.front q ds)) c;
            new = m.new;
            valid = subst (L.Valid st') (fun_ext m.grown) m.valid;
            arrived = record {
              owned =
                  subst
                    (λ w.
                      Owned capacity st' (grown (fills capacity ds) b'.front u) w
                        (upd (next k) (some (pushed capacity b'.front q ds)) c))
                    (fun_ext λ s. bag_at-set sim k b' d' s (rw arr.size_next h))
                    (push-Owned L st all u b q ds b' st' within is m (bag_at sim) c (next k)
                      arr.owned e);
              nexts = λ j hj.
                  located-pushed k j q done c ds b'.front here e
                    (pushed-elems L b'.front q ds is.room) (arr.nexts j hj);
              size_cur = arr.size_cur;
              size_next = length-set sim.bags_next k b' ∙ arr.size_next;
              size_deposit = size_d;
              charge = sum_d ∙ ap (λ t. R.add t (one_real R)) arr.charge;
            };
            same = λ a ia no. m.same a (ground (arith, ia, no, is.owned a));
            curs = λ i. refl;
            same_cur = refl;
            same_field = refl;
          })))
