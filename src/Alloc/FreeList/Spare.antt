-- ===== src/Alloc/FreeList/Spare.antt =====
-- What the allocator with free lists keeps: whole chunks, in use or in the free list.
use optitrust.Prelude.{
  ℕ, ◌≤◌, ◌<◌, ◌≡◌, refl, sym, ap, ◌∙◌, true, false, true≢false, some, arith, ◌==◌, length,
  get_elem?, Bool-cases, ◌⊎◌, inl, inr, List,
}
use optitrust.Memory.{Ptr, Chunk, State, cell, write}
use optitrust.Memory.Allocator.{Region, Full}
use optitrust.Alloc.Naive.{Full-same}
use optitrust.Alloc.FreeList.{FreeList}

-- A chunk that waits in the free list: whole, and not handed out.
pub record Spare {P : Type 0} (capacity : ℕ) (st : State FreeList P) (u : Region) (items : List Ptr)
    (i : ℕ) : Type 0 where
  pub chunk : Ptr
  pub at : get_elem? items i ≡ some chunk
  pub not_out : u chunk ≡ false
  pub whole : Full capacity st chunk

-- The free list has the chunk at `q`.
abbrev pub Waits : FreeList → Ptr → Type 0
Waits pool q = (i : ℕ) × (i < pool.nb) × (get_elem? pool.items i ≡ some q)

-- The chunks in use are whole, and the free list has its size and whole chunks, each once. Every chunk
-- that the memory holds is in use or in the free list.
pub record FreeListValid {P : Type 0} (capacity freelist_capacity : ℕ) (st : State FreeList P)
    (u : Region) : Type 0 where
  pub whole : (p : Ptr) → u p ≡ true → Full capacity st p
  pub places : length st.pool.items ≡ freelist_capacity
  pub bound : st.pool.nb ≤ freelist_capacity
  pub spare : (i : ℕ) → i < st.pool.nb → Spare capacity st u st.pool.items i
  pub distinct :
      (i j : ℕ) (p : Ptr)
      → i < st.pool.nb
      → j < st.pool.nb
      → get_elem? st.pool.items i ≡ some p
      → get_elem? st.pool.items j ≡ some p
      → i ≡ j
  pub no_leak : (q : Ptr) (c : Chunk P) → cell st.heap q ≡ some c → (u q ≡ true) ⊎ Waits st.pool q

-- An address in use is not one that is not.
pub differ : (u : Region) (p a : Ptr) → u p ≡ true → u a ≡ false → (p == a) ≡ false
differ u p a i o = elim (Bool-cases (p == a)) [
  | inl e ↦ (let same : p ≡ a = ground arith in absurd (true≢false (sym i ∙ ap u same ∙ o)))
  | inr e ↦ e
]

module _ {P : Type 0} {capacity : ℕ} where
  -- What becomes of a spare chunk when another address is written.
  pub Spare-write :
      {st st' : State FreeList P} {u u' : Region} {items items' : List Ptr} {i : ℕ}
      (s : Spare capacity st u items i)
      → get_elem? items' i ≡ get_elem? items i
      → cell st'.heap s.chunk ≡ cell st.heap s.chunk
      → u' s.chunk ≡ false
      → Spare capacity st' u' items' i
  Spare-write s e same out = record {
    chunk = s.chunk;
    at = e ∙ s.at;
    not_out = out;
    whole = Full-same s.whole same;
  }

module _ {P : Type 0} {capacity freelist_capacity : ℕ} where
  pub stable-FreeListValid :
      (st : State FreeList P) (u : Region) (p : Ptr) (c : Chunk P)
      → FreeListValid capacity freelist_capacity st u
      → u p ≡ true
      → length c.items ≡ capacity
      → FreeListValid capacity freelist_capacity (write st p (some c)) u
  stable-FreeListValid st u p c v i places = record {
    whole = λ a ia. elim (Bool-cases (p == a)) [
      | inl e ↦ record {
        chunk = c;
        points =
            (let f = v.whole p i in
              let pt = f.points in
              let ne = pt.ne_null in record { ne_null = ground arith; holds = rw e refl });
        places = places;
      }
      | inr e ↦ Full-same (v.whole a ia) (rw e refl)
    ];
    places = v.places;
    bound = v.bound;
    spare = λ j hj.
        (let s = v.spare j hj in
          Spare-write s refl (let ne = differ u p s.chunk i s.not_out in rw ne refl) s.not_out);
    distinct = v.distinct;
    no_leak = λ q c' e. elim (Bool-cases (p == q)) [
      | inl t ↦ (let same : p ≡ q = ground arith in inl (rw (sym same) i))
      | inr t ↦ v.no_leak q c' (rw t at e)
    ];
  }
