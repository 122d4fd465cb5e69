-- ===== src/Alloc.antt =====
-- The naive allocation of chunks in case_studies/pic/src/bag.c. `posix_memalign` is a parameter: the
-- address that it hands out, NULL where it fails, and what the block then happens to contain.
pub mod Naive
pub mod FreeList
use optitrust.Prelude.{ℕ, ◌≡◌, ◌≢◌, none, some, ◌==◌, if◌then◌else◌, length}
use optitrust.Memory.{
  Ptr, null, Chunk, State, Cmd, exited, ok, pure, ◌>>=◌, ◌>>◌, cell, write, load,
}
use optitrust.Memory.Allocator.{Allocator}

pub record Malloc (Pool P : Type 0) : Type 0 where
  pub block : State Pool P → Ptr
  pub contents : State Pool P → Chunk P

-- posix_memalign may fail; a block that it hands out is not in use, and has the size that was asked for.
pub record IsMemalign {Pool P : Type 0} (m : Malloc Pool P) (capacity : ℕ) : Type 0 where
  pub unused : (st : State Pool P) → m.block st ≢ null → cell st.heap (m.block st) ≡ none
  pub places : (st : State Pool P) → length (m.contents st).items ≡ capacity

-- It never fails: a block is not NULL, is not in use, and has the size that was asked for.
pub record IsMalloc {Pool P : Type 0} (m : Malloc Pool P) (capacity : ℕ) : Type 0 where
  pub ne_null : (st : State Pool P) → m.block st ≢ null
  pub unused : (st : State Pool P) → cell st.heap (m.block st) ≡ none
  pub places : (st : State Pool P) → length (m.contents st).items ≡ capacity

module _ {Pool P : Type 0} where
  unfoldable pub chunk_alloc : Malloc Pool P → Cmd Pool P Ptr
  chunk_alloc m st =
      let c : Ptr = m.block st in
      if c == null then exited else ok c (write st c (some (m.contents st)))

  -- `free`: nothing at NULL, and a fault at an address that is not in use
  unfoldable pub chunk_free : Ptr → Cmd Pool P (Unit {0})
  chunk_free c = if c == null then pure tt else load c >>= λ _ st. ok tt (write st c none)

  unfoldable pub bag_chunk_alloc : Malloc Pool P → Cmd Pool P Ptr
  unfolding chunk_alloc
  bag_chunk_alloc m = chunk_alloc m

  unfoldable pub bag_chunk_free : Ptr → Cmd Pool P (Unit {0})
  unfolding chunk_free
  bag_chunk_free c = chunk_free c

  abbrev pub naive : Malloc Pool P → Allocator Pool P
  naive m = record { alloc = bag_chunk_alloc m; free = bag_chunk_free }
