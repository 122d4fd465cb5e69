-- ===== src/Tests/Bag.antt =====
-- bag.c at the two bags of `Tests.Memory`.
use mathlib.Core.List.{Perm, foldl}
use optitrust.Prelude.{ℕ, ◌+◌, ◌*◌, ◌≡◌, true, false, [], ◌∷◌, arith, length}
use optitrust.Memory.{Ptr, ok}
use optitrust.Memory.Returns.{Returns}
use optitrust.Memory.Allocator.{Region, SameOn, insert}
use optitrust.Bag.{
  bag_push, bag_append, bag_size, bag_free, bag_init, bag_iter_ho_basic, bag_iter_ho_chunk,
}
use optitrust.Bag.Chain.{Cells, has, elems}
use optitrust.Bag.Shape.{IsBag, without}
use optitrust.Bag.Init.{bag_init-IsBag}
use optitrust.Bag.Push.{Pushed, bag_push-Pushed, bag_push-elems}
use optitrust.Bag.Append.{Appended, Disjoint, bag_append-Appended}
use optitrust.Bag.Walk.{bag_size-elems, bag_free-without}
use optitrust.Bag.Iterate.Modify.{modify, state_after, modified, bag_iter_ho_chunk-modified}
use optitrust.Bag.Iterate.Fold.{visit, left_of, bag_iter_ho_basic-foldl, bag_iter_ho_chunk-foldl}
use optitrust.Tests.Memory.{
  heap1, used, alloc, alloc-IsAllocator, used-Valid, first_bag, second_bag, first_cells,
  second_cells, first-IsBag, second-IsBag,
}

bag_init-IsBag_example :
    Returns
      (λ b st'.
        (used b.front ≡ false)
        × IsBag 2 st' (insert b.front used) b ((b.front, []) ∷ [])
        × alloc-IsAllocator.Valid st' (insert b.front used)
        × SameOn used heap1 st')
      (bag_init alloc 2 heap1)
bag_init-IsBag_example = bag_init-IsBag alloc-IsAllocator heap1 used (omega arith) used-Valid

bag_push-Pushed_example :
    Returns
      (Pushed alloc-IsAllocator heap1 used first_bag 8 first_cells)
      (bag_push alloc 2 first_bag 8 heap1)
bag_push-Pushed_example =
    bag_push-Pushed alloc-IsAllocator heap1 used first_bag 8 first_cells used-Valid first-IsBag

bag_push-elems_example :
    Returns
      (λ b' st'.
        (u' : Region) × (cs' : Cells ℕ) × alloc-IsAllocator.Valid st' u'
        × IsBag 2 st' u' b' cs'
        × Perm (elems cs') (8 ∷ elems first_cells))
      (bag_push alloc 2 first_bag 8 heap1)
bag_push-elems_example =
    bag_push-elems alloc-IsAllocator heap1 used first_bag 8 first_cells used-Valid first-IsBag

two_bags_apart : Disjoint first_cells second_cells
two_bags_apart a i = ground arith

bag_append-Appended_example :
    Returns
      (λ (b', other') st'.
        Appended alloc-IsAllocator heap1 used first_cells second_cells b' other' st')
      (bag_append alloc 2 first_bag second_bag heap1)
bag_append-Appended_example =
    bag_append-Appended alloc-IsAllocator heap1 used first_bag second_bag first_cells second_cells
      (omega arith) used-Valid first-IsBag second-IsBag two_bags_apart

bag_size-elems_example : bag_size alloc 2 5 first_bag heap1 ≡ ok (length (elems first_cells)) heap1
bag_size-elems_example =
    bag_size-elems alloc 2 heap1 5 used first_bag first_cells first-IsBag (omega arith)
      (unfold elems in omega arith)

bag_free-without_example :
    Returns
      (λ _ st'.
        alloc-IsAllocator.Valid st' (without first_cells used)
        × SameOn (without first_cells used) heap1 st')
      (bag_free alloc 2 5 first_bag heap1)
bag_free-without_example =
    bag_free-without alloc-IsAllocator 5 heap1 used first_bag first_cells used-Valid first-IsBag
      (omega arith)

-- Decimal digits, so that the order of the visits shows.
abbrev digit : ℕ → ℕ → ℕ
digit s x = 10 * s + x

bag_iter_ho_basic-foldl_example :
    Returns
      (λ s' st'.
        (s' ≡ foldl digit 0 (elems first_cells))
        × alloc-IsAllocator.Valid st' (left_of true first_cells used)
        × SameOn (left_of true first_cells used) heap1 st')
      (bag_iter_ho_basic alloc 2 4 5 first_bag (visit digit) true 0 heap1)
bag_iter_ho_basic-foldl_example =
    bag_iter_ho_basic-foldl alloc-IsAllocator digit 4 5 heap1 used first_bag first_cells true 0
      used-Valid first-IsBag (omega arith) (unfold elems in omega arith)

bag_iter_ho_chunk-foldl_example :
    Returns
      (λ s' st'.
        (s' ≡ foldl digit 0 (elems first_cells))
        × alloc-IsAllocator.Valid st' (left_of false first_cells used)
        × SameOn (left_of false first_cells used) heap1 st')
      (bag_iter_ho_chunk alloc 2 5 first_bag (visit digit) false 0 heap1)
bag_iter_ho_chunk-foldl_example =
    bag_iter_ho_chunk-foldl alloc-IsAllocator digit 5 heap1 used first_bag first_cells false 0
      used-Valid first-IsBag (omega arith)

-- Doubles the particle, and adds it to the sum.
abbrev double : ℕ → ℕ → ℕ × ℕ
double s x = (s + x, 2 * x)

bag_iter_ho_chunk-modified_example :
    Returns
      (λ s' st'.
        (s' ≡ state_after double 0 (elems first_cells))
        × ((cs' : Cells ℕ) × IsBag 2 st' used first_bag cs'
            × (elems cs' ≡ modified double 0 (elems first_cells))
            × ((a : Ptr) → has a cs' ≡ has a first_cells))
        × alloc-IsAllocator.Valid st' used
        × SameOn (without first_cells used) heap1 st')
      (bag_iter_ho_chunk alloc 2 5 first_bag (modify double) false 0 heap1)
bag_iter_ho_chunk-modified_example =
    bag_iter_ho_chunk-modified alloc-IsAllocator double 5 heap1 used first_bag first_cells 0
      used-Valid first-IsBag (omega arith)
