-- ===== src/Tests/Memory.antt =====
-- A memory with two bags of chunks of capacity 2, and an allocator that hands out the first address
-- behind all that were ever used.
use Prim.Native.Nat.{max}
use optitrust.Prelude.{ℕ, ◌+◌, ◌≤◌, ◌≡◌, refl, false, false≢true, none, some, [], ◌∷◌, arith}
use optitrust.Memory.{Ptr, Chunk, Heap, State, cell, write}
use optitrust.Memory.Allocator.{Allocator, IsAllocator, Region, insert}
use optitrust.Alloc.{Malloc, IsMalloc, naive}
use optitrust.Alloc.Naive.{NaiveValid, write-NaiveValid, naive-IsAllocator}
use optitrust.Bag.{Bag}
use optitrust.Bag.Chain.{Cells, last_ptr, Holds, nil, cons}
use optitrust.Bag.Shape.{IsBag}

abbrev pub Mem : Type 0
Mem = State (Unit {0}) ℕ

abbrev pub mem : Heap ℕ → Mem
mem h = record { heap = h; pool = tt }

abbrev pub chunk : Ptr → ℕ → ℕ → ℕ → Chunk ℕ
chunk next size a b = record { next = next; size = size; items = a ∷ b ∷ [] }

abbrev pub bump : {P : Type 0} → Heap P → Ptr
bump [] = 1
bump ((p, _) ∷ h) = max (p + 1) (bump h)

cell-bump : {P : Type 0} (h : Heap P) (a : Ptr) → bump h ≤ a → cell h a ≡ none
cell-bump [] a le = refl
cell-bump ((p, c) ∷ h) a le = ground (arith, cell-bump h a)

bump_pos : {P : Type 0} (h : Heap P) → 1 ≤ bump h
bump_pos [] = omega arith
bump_pos ((p, c) ∷ h) = omega (arith, bump_pos h)

-- A new block holds what was left in it.
abbrev pub malloc : {Pool P : Type 0} → P → Malloc Pool P
malloc x = record {
  block = λ st. bump st.heap;
  contents = λ st. record { next = 99; size = 7; items = x ∷ x ∷ [] };
}

pub malloc-IsMalloc : {Pool P : Type 0} (x : P) → IsMalloc (malloc {Pool = Pool} x) 2
malloc-IsMalloc x = record {
  ne_null = λ st e. absurd (omega (arith, bump_pos st.heap, e));
  unused = λ st. cell-bump st.heap (bump st.heap) (omega arith);
  places = λ st. refl;
}

abbrev pub alloc : Allocator (Unit {0}) ℕ
alloc = naive (malloc 13)

unfoldable pub alloc-IsAllocator : IsAllocator alloc 2
unfolding naive-IsAllocator
alloc-IsAllocator = naive-IsAllocator (malloc 13) (malloc-IsMalloc 13)

abbrev pub none_used : Region
none_used a = false

abbrev pub heap3 : Mem
heap3 = mem ((3, some (chunk 0 1 9 0)) ∷ [])

abbrev pub heap2 : Mem
heap2 = write heap3 2 (some (chunk 0 2 6 7))

abbrev pub heap1 : Mem
heap1 = write heap2 1 (some (chunk 2 1 5 0))

abbrev pub used : Region
used = insert 1 (insert 2 (insert 3 none_used))

used-NaiveValid : NaiveValid 2 heap1 used
used-NaiveValid =
    let v0 : NaiveValid {P = ℕ} 2 (mem []) none_used = record {
      whole = λ a i. absurd (false≢true i);
      no_leak = λ a o. refl;
    } in
    let v3 : NaiveValid 2 heap3 (insert 3 none_used) =
      write-NaiveValid (mem []) (insert 3 none_used) 3 (chunk 0 1 9 0)
        (λ a i e. v0.whole a (ground arith)) (λ a o e. v0.no_leak a (ground arith)) refl
        (omega arith) refl in
    let v2 : NaiveValid 2 heap2 (insert 2 (insert 3 none_used)) =
      write-NaiveValid heap3 (insert 2 (insert 3 none_used)) 2 (chunk 0 2 6 7)
        (λ a i e. v3.whole a (ground arith)) (λ a o e. v3.no_leak a (ground arith)) refl
        (omega arith) refl in
    write-NaiveValid heap2 used 1 (chunk 2 1 5 0) (λ a i e. v2.whole a (ground arith))
      (λ a o e. v2.no_leak a (ground arith)) refl (omega arith) refl

-- The three chunks are all that is allocated.
pub used-Valid : alloc-IsAllocator.Valid heap1 used
unfolding alloc-IsAllocator
used-Valid = used-NaiveValid

abbrev pub first_bag : Bag
first_bag = record { front = 1; back = 2 }

abbrev pub second_bag : Bag
second_bag = record { front = 3; back = 3 }

abbrev pub first_cells : Cells ℕ
first_cells = (1, 5 ∷ []) ∷ (2, 6 ∷ 7 ∷ []) ∷ []

abbrev pub second_cells : Cells ℕ
second_cells = (3, 9 ∷ []) ∷ []

pub first-IsBag : IsBag 2 heap1 used first_bag first_cells
unfolding last_ptr
first-IsBag = record {
  chain = cons h1 refl (cons h2 refl nil);
  owned = λ a i. ground arith;
  back = refl;
  room = omega arith;
}
  where
    h1 : Holds 2 heap1 1 2 (5 ∷ [])
    h1 = record {
      chunk = chunk 2 1 5 0;
      points = record { ne_null = omega arith; holds = refl };
      places = refl;
      leads = refl;
      fits = omega arith;
      contents = refl;
    }

    h2 : Holds 2 heap1 2 0 (6 ∷ 7 ∷ [])
    h2 = record {
      chunk = chunk 0 2 6 7;
      points = record { ne_null = omega arith; holds = refl };
      places = refl;
      leads = refl;
      fits = omega arith;
      contents = refl;
    }

pub second-IsBag : IsBag 2 heap1 used second_bag second_cells
unfolding last_ptr
second-IsBag = record {
  chain = cons h3 refl nil;
  owned = λ a i. ground arith;
  back = refl;
  room = omega arith;
}
  where
    h3 : Holds 2 heap1 3 0 (9 ∷ [])
    h3 = record {
      chunk = chunk 0 1 9 0;
      points = record { ne_null = omega arith; holds = refl };
      places = refl;
      leads = refl;
      fits = omega arith;
      contents = refl;
    }
