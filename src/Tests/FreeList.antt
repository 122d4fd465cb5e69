-- ===== src/Tests/FreeList.antt =====
-- A chunk in use and a chunk in a free list of two places.
use optitrust.Prelude.{
  ℕ, zero, suc, ◌<◌, ◌≡◌, ◌≢◌, refl, sym, ap, true, false, some, [], ◌∷◌, arith, ◌==◌, Bool-cases,
  inl, inr, ◌⊎◌,
}
use optitrust.Memory.{Ptr, null, Chunk, State, ok, exited, cell}
use optitrust.Alloc.{Malloc, IsMalloc, IsMemalign}
use optitrust.Memory.Returns.{Returns}
use optitrust.Memory.Allocator.{Full, SameOn, Region, insert, remove}
use optitrust.Alloc.FreeList.{FreeList, custom_chunk_alloc, custom_chunk_free, freelist_try_pop}
use optitrust.Alloc.FreeList.Spare.{FreeListValid, Spare, Waits}
use optitrust.Alloc.FreeList.Pop.{alloc-FreeListValid}
use optitrust.Alloc.FreeList.Push.{free-FreeListValid}
use optitrust.Tests.Memory.{chunk, malloc, malloc-IsMalloc, none_used}

abbrev state : State FreeList ℕ
state = record {
  heap = (4, some (chunk 0 0 1 2)) ∷ (5, some (chunk 0 2 3 6)) ∷ [];
  pool = record { nb = 1; items = 4 ∷ 0 ∷ [] };
}

abbrev in_use : Region
in_use = insert 5 none_used

abbrev blocks : Malloc FreeList ℕ
blocks = malloc 13

-- An allocator without memory.
abbrev failing : Malloc FreeList ℕ
failing = record { block = λ _. null; contents = λ _. chunk 0 0 0 0 }

alloc_fails :
    custom_chunk_alloc failing 2 (record state { pool = record { nb = 0; items = 4 ∷ 0 ∷ [] } })
    ≡ exited
unfolding custom_chunk_alloc optitrust.Alloc.chunk_alloc
alloc_fails = refl

-- The free list is empty once its chunk is taken.
try_pop_small :
    freelist_try_pop state ≡ ok 4 (record state { pool = record { nb = 0; items = 4 ∷ 0 ∷ [] } })
unfolding freelist_try_pop
try_pop_small = refl

whole : (p : Ptr) → in_use p ≡ true → Full 2 state p
whole p i = elim (Bool-cases (5 == p)) [
  | inl e ↦
      let same : 5 ≡ p = ground arith in
      rw (sym same) (record {
        chunk = chunk 0 2 3 6;
        points = record { ne_null = λ w. absurd (omega (arith, w)); holds = refl };
        places = refl;
      })
  | inr e ↦ absurd (ground arith)
]

spare : (i : ℕ) → i < 1 → Spare 2 state in_use (4 ∷ 0 ∷ []) i
spare zero h = record {
  chunk = 4;
  at = refl;
  not_out = refl;
  whole = record {
    chunk = chunk 0 0 1 2;
    points = record { ne_null = λ w. absurd (omega (arith, w)); holds = refl };
    places = refl;
  };
}
spare (suc i) h = absurd (omega arith)

no_leak :
    (q : Ptr) (c : Chunk ℕ) → cell state.heap q ≡ some c → (in_use q ≡ true) ⊎ Waits state.pool q
no_leak q c e = elim (Bool-cases (5 == q)) [
  | inl t ↦ inl (ground arith)
  | inr t ↦ elim (Bool-cases (4 == q)) [
    | inl f ↦ (let same : 4 ≡ q = ground arith in inr (0, omega arith, ap some same))
    | inr f ↦ (let h = rw (f, t) at e in cc)
  ]
]

state-Valid : FreeListValid 2 2 state in_use
state-Valid = record {
  whole = whole;
  places = refl;
  bound = omega arith;
  spare = spare;
  distinct = λ i j p hi hj ei ej. omega arith;
  no_leak = no_leak;
}

blocks-IsMemalign : IsMemalign blocks 2
blocks-IsMemalign =
    (let im = malloc-IsMalloc 13 in record { unused = λ st _. im.unused st; places = im.places })

alloc-FreeListValid_example :
    ((state.pool.nb ≡ 0)
      × (blocks.block state ≡ null)
      × (custom_chunk_alloc blocks 2 state ≡ exited))
    ⊎ (((state.pool.nb ≡ 0) → blocks.block state ≢ null)
        × Returns
            (λ p st'.
              (in_use p ≡ false)
              × FreeListValid 2 2 st' (insert p in_use)
              × SameOn in_use state st')
            (custom_chunk_alloc blocks 2 state))
alloc-FreeListValid_example = alloc-FreeListValid blocks blocks-IsMemalign state in_use state-Valid

-- The chunk of the free list, though the allocator of the C library fails.
alloc_small :
    custom_chunk_alloc failing 2 state
    ≡ ok 4 (record state { pool = record { nb = 0; items = 4 ∷ 0 ∷ [] } })
unfolding custom_chunk_alloc
alloc_small = refl

free-FreeListValid_example :
    Returns
      (λ _ st'. FreeListValid 2 2 st' (remove 5 in_use) × SameOn (remove 5 in_use) state st')
      (custom_chunk_free blocks 2 5 state)
free-FreeListValid_example = free-FreeListValid state in_use 5 blocks state-Valid refl
