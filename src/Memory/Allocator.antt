-- ===== src/Memory/Allocator.antt =====
-- The allocator of chunks, as the bags see it: `bag_chunk_alloc` and `bag_chunk_free`.
use optitrust.Prelude.{ℕ, ◌≡◌, Bool, true, false, ◌&&◌, ◌||◌, not, ◌==◌, length, some}
use optitrust.Memory.{Ptr, Chunk, State, Cmd, cell, write}
use optitrust.Memory.Points.{Points}
use optitrust.Memory.Returns.{Returns}

pub record Allocator (Pool P : Type 0) : Type 0 where
  pub alloc : Cmd Pool P Ptr
  pub free : Ptr → Cmd Pool P (Unit {0})

-- A set of addresses.
abbrev pub Region : Type 0
Region = Ptr → Bool

abbrev pub insert : Ptr → Region → Region
insert p u a = (p == a) || u a

abbrev pub remove : Ptr → Region → Region
remove p u a = not (p == a) && u a

-- `st'` holds what `st` holds at every address of `u`.
abbrev pub SameOn : {Pool P : Type 0} → Region → State Pool P → State Pool P → Type 0
SameOn u st st' = (a : Ptr) → u a ≡ true → cell st'.heap a ≡ cell st.heap a

-- A chunk whose array has `capacity` places.
pub record Full {Pool P : Type 0} (capacity : ℕ) (st : State Pool P) (p : Ptr) : Type 0 where
  pub chunk : Chunk P
  pub points : Points st p chunk
  pub places : length chunk.items ≡ capacity

-- What the bags rely on. `Valid st u` says that the allocator has handed out the chunks at `u`.
pub record IsAllocator {Pool P : Type 0} (A : Allocator Pool P) (capacity : ℕ) : Type 1 where
  pub Valid : State Pool P → Region → Type 0
  pub full :
      (st : State Pool P) (u : Region) (p : Ptr) → Valid st u → u p ≡ true → Full capacity st p
  pub stable :
      (st : State Pool P) (u : Region) (p : Ptr) (c : Chunk P)
      → Valid st u
      → u p ≡ true
      → length c.items ≡ capacity
      → Valid (write st p (some c)) u
  pub alloc-Valid :
      (st : State Pool P) (u : Region)
      → Valid st u
      → Returns (λ p st'. (u p ≡ false) × Valid st' (insert p u) × SameOn u st st') (A.alloc st)
  pub free-Valid :
      (st : State Pool P) (u : Region) (p : Ptr)
      → Valid st u
      → u p ≡ true
      → Returns (λ _ st'. Valid st' (remove p u) × SameOn (remove p u) st st') (A.free p st)
