-- ===== src/Alloc/FreeList.antt =====
-- The allocation with free lists in case_studies/pic/src/bag.c: a thread keeps the chunks that it gives
-- back, up to a capacity, and takes them again first. The free list is that of the calling thread.
pub mod Spare
pub mod Pop
pub mod Push
pub mod Valid
use optitrust.Prelude.{ℕ, ◌+◌, ◌-◌, List, get_elem?, set, ◌==◌, ltb, if◌then◌else◌}
use optitrust.Memory.{Ptr, null, State, Cmd, ok, pure, ◌>>=◌, ◌>>◌, or_fault}
use optitrust.Memory.Allocator.{Allocator}
use optitrust.Alloc.{Malloc, chunk_alloc, chunk_free}

-- bag.c declares `items` as `chunk*`, with which its own uses do not type-check: init_freelists allocates
-- places of the size of a `chunk*`, and the functions below store and return pointers. The model has the
-- array of pointers that they mean.
-- `items` is the array of `freelist_capacity` places, of which the first `nb` are in use.
pub record FreeList : Type 0 where
  pub nb : ℕ
  pub items : List Ptr

module _ {P : Type 0} where
  abbrev set_list : ℕ → List Ptr → Cmd FreeList P (Unit {0})
  set_list nb items st = ok tt (record st { pool = record { nb = nb; items = items } })

  unfoldable pub freelist_try_pop : Cmd FreeList P Ptr
  freelist_try_pop st =
      if ltb 0 st.pool.nb
      then (do
        set_list (st.pool.nb - 1) st.pool.items
        or_fault (get_elem? st.pool.items (st.pool.nb - 1)))
          st
      else ok null st

  module _ (m : Malloc FreeList P) (freelist_capacity : ℕ) where
    unfoldable pub custom_chunk_alloc : Cmd FreeList P Ptr
    custom_chunk_alloc st =
        if ltb 0 st.pool.nb
        then (do
          set_list (st.pool.nb - 1) st.pool.items
          or_fault (get_elem? st.pool.items (st.pool.nb - 1)))
            st
        else chunk_alloc m st

    unfoldable pub custom_chunk_free : Ptr → Cmd FreeList P (Unit {0})
    custom_chunk_free c st =
        if ltb st.pool.nb freelist_capacity
        then (do
          _ ← or_fault (get_elem? st.pool.items st.pool.nb)
          set_list (st.pool.nb + 1) (set st.pool.items st.pool.nb c))
            st
        else chunk_free c st

    abbrev pub custom : Allocator FreeList P
    custom = record { alloc = custom_chunk_alloc; free = custom_chunk_free }
