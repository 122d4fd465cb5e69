-- ===== src/Bag/Shape.antt =====
-- What it is for a bag to be well formed, and the first writes to a new chunk.
use optitrust.Prelude.{ℕ, ◌<◌, ◌≡◌, refl, true, not, ◌&&◌, some, [], ◌∷◌, arith, length}
use optitrust.Memory.{Ptr, null, Chunk, State, write, pure, ◌>>◌, set_next, set_size}
use optitrust.Memory.Points.{set_next-ok, set_size-ok, Points-write}
use optitrust.Memory.Returns.{Returns, returns}
use optitrust.Memory.Allocator.{Allocator, IsAllocator, Region, SameOn, remove}
use optitrust.Bag.{Bag}
use optitrust.Bag.Chain.{Cells, has, last_ptr, Holds, Seg}

-- There is a front chunk, and it has a free place.
abbrev pub HasRoom : {P : Type 0} → ℕ → Cells P → Type 0
HasRoom capacity [] = ⊥
HasRoom capacity ((_, xs) ∷ cs) = length xs < capacity

-- `b` is the bag of the chunks `cs`, all of them in the region `u`.
pub record IsBag {Pool P : Type 0} (capacity : ℕ) (st : State Pool P) (u : Region) (b : Bag)
    (cs : Cells P) : Type 0 where
  pub chain : Seg capacity st null b.front cs
  pub owned : (a : Ptr) → has a cs ≡ true → u a ≡ true
  pub back : b.back ≡ last_ptr null cs
  pub room : HasRoom capacity cs

-- The region without the chunks of a bag.
abbrev pub without : {P : Type 0} → Cells P → Region → Region
without cs u a = not (has a cs) && u a

module _ {Pool P : Type 0} {A : Allocator Pool P} {capacity : ℕ} (L : IsAllocator A capacity) where
  -- After `c->size = 0; c->next = q`.
  pub record Emptied (st : State Pool P) (u : Region) (c q : Ptr) (st' : State Pool P)
      : Type 0 where
    pub empty : Holds capacity st' c q []
    pub valid : L.Valid st' u
    pub same : SameOn (remove c u) st st'

  pub empty_chunk :
      {B : Type 0} (x : B) (st : State Pool P) (u : Region) (c q : Ptr)
      → L.Valid st u
      → u c ≡ true
      → Returns
          (λ y st'. (y ≡ x) × Emptied st u c q st')
          ((do set_size c 0; set_next c q; pure x) st)
  empty_chunk x st u c q v i =
      let f = L.full st u c v i in
      let d : Chunk P = record f.chunk { size = 0 } in
      let pts = Points-write f.points d in
      let st1 = write st c (some d) in
      let v1 = L.stable st u c d v i f.places in
      rw (set_size-ok f.points 0, set_next-ok pts q)
        (returns (
          refl,
          record {
            empty = record {
              chunk = record d { next = q };
              points = Points-write pts (record d { next = q });
              places = f.places;
              leads = refl;
              fits = omega arith;
              contents = refl;
            };
            valid = L.stable st1 u c (record d { next = q }) v1 i f.places;
            same = λ a ia. ground arith;
          },
        ))
