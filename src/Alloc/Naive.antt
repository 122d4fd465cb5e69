-- ===== src/Alloc/Naive.antt =====
-- The naive allocator keeps the contract of the bags.
use optitrust.Prelude.{
  ℕ, ◌≡◌, ◌≢◌, true, false, none, some, arith, ◌==◌, length, Bool-cases, ◌⊎◌, inl, inr,
}
use optitrust.Memory.{Ptr, null, Chunk, State, cell, write}
use optitrust.Memory.Points.{not_null, load-ok}
use optitrust.Memory.Returns.{Returns, returns}
use optitrust.Memory.Allocator.{IsAllocator, Region, Full, SameOn, insert, remove}
use optitrust.Alloc.{Malloc, IsMalloc, naive, bag_chunk_alloc, bag_chunk_free}

-- The chunks in use are whole, and nothing else is allocated.
pub record NaiveValid {Pool P : Type 0} (capacity : ℕ) (st : State Pool P) (u : Region)
    : Type 0 where
  pub whole : (p : Ptr) → u p ≡ true → Full capacity st p
  pub no_leak : (p : Ptr) → u p ≡ false → cell st.heap p ≡ none

module _ {Pool P : Type 0} {capacity : ℕ} where
  pub Full-same :
      {st st' : State Pool P} {p : Ptr}
      → Full capacity st p
      → cell st'.heap p ≡ cell st.heap p
      → Full capacity st' p
  Full-same f same = record {
    chunk = f.chunk;
    points = let pt = f.points in record { ne_null = pt.ne_null; holds = ground (arith, pt.holds) };
    places = f.places;
  }

  -- The chunk at `p` is written, and all else in the region is whole already.
  pub write-NaiveValid :
      (st : State Pool P) (u : Region) (p : Ptr) (c : Chunk P)
      → ((a : Ptr) → u a ≡ true → (p == a) ≡ false → Full capacity st a)
      → ((a : Ptr) → u a ≡ false → (p == a) ≡ false → cell st.heap a ≡ none)
      → u p ≡ true
      → p ≢ null
      → length c.items ≡ capacity
      → NaiveValid capacity (write st p (some c)) u
  write-NaiveValid st u p c others rest i ne places = record {
    whole = λ a ia. elim (Bool-cases (p == a)) [
      | inl e ↦ record {
        chunk = c;
        points = record { ne_null = ground arith; holds = rw e };
        places = places;
      }
      | inr e ↦ Full-same (others a ia e) (rw e)
    ];
    no_leak = λ a o. ground (arith, rest a o);
  }

  free-NaiveValid :
      (st : State Pool P) (u : Region) (p : Ptr)
      → NaiveValid capacity st u
      → NaiveValid capacity (write st p none) (remove p u)
  free-NaiveValid st u p v = record {
    whole = λ a ia. Full-same (v.whole a (ground arith)) (ground arith);
    no_leak = λ a o. ground (arith, v.no_leak a);
  }

  module _ (m : Malloc Pool P) (im : IsMalloc m capacity) where
    pub alloc-NaiveValid :
        (st : State Pool P) (u : Region)
        → NaiveValid capacity st u
        → Returns
            (λ p st'. (u p ≡ false) × NaiveValid capacity st' (insert p u) × SameOn u st st')
            (bag_chunk_alloc m st)
    unfolding bag_chunk_alloc
    alloc-NaiveValid st u v =
        let p : Ptr = m.block st in
        let ne : (p == null) ≡ false = ground (arith, im.ne_null st) in
        let new : u p ≡ false = not_owned (Bool-cases (u p)) in
        rw ne (
          returns (
            new,
            write-NaiveValid st (insert p u) p (m.contents st) (λ a ia e. v.whole a (ground arith))
                (λ a o e. v.no_leak a (ground arith)) (ground arith) (im.ne_null st) (im.places st),
            λ a ia. ground arith,
          ))
      where
        not_owned : (u (m.block st) ≡ true) ⊎ (u (m.block st) ≡ false) → u (m.block st) ≡ false
        not_owned (inl i) =
            let f = v.whole (m.block st) i in
            let pt = f.points in let e = pt.holds in absurd (ground (arith, im.unused st))
        not_owned (inr o) = o

    pub stable-NaiveValid :
        (st : State Pool P) (u : Region) (p : Ptr) (c : Chunk P)
        → NaiveValid capacity st u
        → u p ≡ true
        → length c.items ≡ capacity
        → NaiveValid capacity (write st p (some c)) u
    stable-NaiveValid st u p c v i places =
        let f = v.whole p i in
        let pt = f.points in
        write-NaiveValid st u p c (λ a ia e. v.whole a ia) (λ a o e. v.no_leak a o) i pt.ne_null
          places

    pub bag_chunk_free-NaiveValid :
        (st : State Pool P) (u : Region) (p : Ptr)
        → NaiveValid capacity st u
        → u p ≡ true
        → Returns
            (λ _ st'. NaiveValid capacity st' (remove p u) × SameOn (remove p u) st st')
            (bag_chunk_free p st)
    unfolding bag_chunk_free
    bag_chunk_free-NaiveValid st u p v i =
        let f = v.whole p i in
        rw (not_null f.points, load-ok f.points)
          (returns (free-NaiveValid st u p v, λ a ia. ground arith))

    unfoldable pub naive-IsAllocator : IsAllocator (naive m) capacity
    naive-IsAllocator = record {
      Valid = NaiveValid capacity;
      full = λ st u p v i. v.whole p i;
      stable = stable-NaiveValid;
      alloc-Valid = alloc-NaiveValid;
      free-Valid = bag_chunk_free-NaiveValid;
    }
