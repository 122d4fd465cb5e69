-- ===== src/Alloc/FreeList/Valid.antt =====
-- The allocator with free lists as the bags see it.
use optitrust.Prelude.{ℕ, inl, inr}
use optitrust.Memory.Allocator.{IsAllocator}
use optitrust.Alloc.{Malloc, IsMalloc, IsMemalign}
use optitrust.Alloc.FreeList.{FreeList, custom}
use optitrust.Alloc.FreeList.Spare.{FreeListValid, stable-FreeListValid}
use optitrust.Alloc.FreeList.Pop.{alloc-FreeListValid}
use optitrust.Alloc.FreeList.Push.{free-FreeListValid}

abbrev memalign :
    {P : Type 0} {capacity : ℕ} {m : Malloc FreeList P}
    → IsMalloc m capacity
    → IsMemalign m capacity
memalign im = record { unused = λ st _. im.unused st; places = im.places }

-- The allocator fills the interface of the bags.
unfoldable pub custom-IsAllocator :
    {P : Type 0} {capacity : ℕ} (freelist_capacity : ℕ) (m : Malloc FreeList P)
    → IsMalloc m capacity
    → IsAllocator (custom m freelist_capacity) capacity
custom-IsAllocator {capacity} freelist_capacity m im = record {
  Valid = FreeListValid capacity freelist_capacity;
  full = λ st u p v i. v.whole p i;
  stable = stable-FreeListValid;
  alloc-Valid = λ st u v. elim (alloc-FreeListValid m (memalign im) st u v) [
    | inl (_, z, _) ↦ absurd (im.ne_null st z)
    | inr (_, r) ↦ r
  ];
  free-Valid = λ st u p v i. free-FreeListValid st u p m v i;
}
