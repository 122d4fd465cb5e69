-- ===== src/Tests/Quicksort.antt =====
-- Five numbers, partitioned and sorted, and three hundred in descending order.
use optitrust.Prelude.{
  ℕ, zero, suc, ◌<◌, ◌≡◌, refl, Bool, false, some, List, [], ◌∷◌, length, get_elem?, arith, ltb,
}
use optitrust.Loops.Ensures.{Ensures}
use optitrust.Quicksort.{partition, sort, sort_core}
use optitrust.Quicksort.Shuffle.{count}
use optitrust.Quicksort.Selection.{IsOrder}
use optitrust.Quicksort.Sorted.{Done, sort-Sorted, sort_core-Done}

abbrev numbers : List ℕ
numbers = 5 ∷ 1 ∷ 4 ∷ 2 ∷ 3 ∷ []

partition_small : partition ltb numbers 0 5 ≡ some (2, 1 ∷ 2 ∷ 3 ∷ 5 ∷ 4 ∷ [])
unfolding partition optitrust.Loops.for_loop optitrust.Quicksort.partition_step
    optitrust.Quicksort.swap optitrust.Loops.write
partition_small = refl

sort_small : sort ltb numbers 5 ≡ some (1 ∷ 2 ∷ 3 ∷ 4 ∷ 5 ∷ [])
unfolding sort sort_core optitrust.Quicksort.insertion_sort optitrust.Loops.for_loop
    optitrust.Quicksort.select_step optitrust.Quicksort.swap optitrust.Loops.write
sort_small = refl

ltb-IsOrder : IsOrder ltb
ltb-IsOrder = record {
  irreflexive = λ x. ground arith;
  asymmetric = λ x y e. ground arith;
  transitive = λ x y z e f. ground arith;
}

-- A list that is long enough to be partitioned.
abbrev countdown : ℕ → List ℕ
countdown zero = []
countdown (suc n) = n ∷ countdown n

sort-Sorted_example :
    (ys : List ℕ) × (sort ltb (countdown 300) 300 ≡ some ys)
    × (length ys ≡ 300)
    × ((i j : ℕ)
        → i < j
        → j < 300
        → (x y : ℕ) → get_elem? ys i ≡ some x
        → get_elem? ys j ≡ some y
        → ltb y x ≡ false)
    × ((p : ℕ → Bool) → count p ys ≡ count p (countdown 300))
sort-Sorted_example = sort-Sorted ltb ltb-IsOrder (countdown 300) 300 refl

sort_core-Done_example :
    Ensures (Done ltb ltb-IsOrder 20 270 (countdown 300)) (sort_core ltb 271 (countdown 300) 20 270)
sort_core-Done_example =
    sort_core-Done ltb ltb-IsOrder 271 (countdown 300) 20 270 (omega arith) (omega arith)
