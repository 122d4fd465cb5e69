-- ===== src/Quicksort.antt =====
-- The sort of case_studies/quicksort/quicksort.cpp. A pointer into the array is the array with the
-- position it points to, and `lt` is `<` on `int`.
pub mod Shuffle
pub mod Partition
pub mod Selection
pub mod Sorted
use optitrust.Prelude.{
  ℕ, zero, suc, ◌+◌, ◌-◌, Bool, Option, none, some, List, get_elem?, leb, ◌==◌, if◌then◌else◌,
}
use optitrust.Prelude.Options.{◌>>=◌}
use optitrust.Loops.{for_loop, write}

-- swap(&arr[a], &arr[b])
unfoldable pub swap : {A : Type 0} → List A → ℕ → ℕ → Option (List A)
swap arr a b = do temp ← get_elem? arr a; y ← get_elem? arr b; arr ← write arr a y; write arr b temp

module _ {A : Type 0} (lt : A → A → Bool) where
  -- One more element is compared with the pivot; the first of the pair is idxLeft + 1.
  unfoldable pub partition_step : A → ℕ → ℕ → ℕ × List A → Option (ℕ × List A)
  partition_step pivot base idx_iter r = get_elem? r.1 (base + idx_iter) >>= λ x.
      if lt x pivot
      then (swap r.1 (base + r.0) (base + idx_iter) >>= λ arr. some (r.0 + 1, arr))
      else some r

  -- The pivot's position and the array, for a part of at least one element.
  unfoldable pub partition : List A → ℕ → ℕ → Option (ℕ × List A)
  partition arr base right_limit = do
    pivot ← get_elem? arr (base + (right_limit - 1))
    r ← for_loop (right_limit - 1) 0 (partition_step pivot base) (0, arr)
    arr ← swap r.1 (base + r.0) (base + (right_limit - 1))
    some (r.0, arr)

  -- idxMin after one more element
  unfoldable pub select_step : List A → ℕ → ℕ → ℕ → Option ℕ
  select_step arr base idx_iter idx_min = do
    x ← get_elem? arr (base + idx_min)
    y ← get_elem? arr (base + idx_iter)
    some (if lt y x then idx_iter else idx_min)

  unfoldable pub insertion_sort : List A → ℕ → ℕ → Option (List A)
  insertion_sort arr base right_limit =
      for_loop (right_limit - 1) 0
        (λ idx arr. do
          idx_min ← for_loop (right_limit - (idx + 1)) (idx + 1) (select_step arr base) idx
          swap arr (base + idx) (base + idx_min))
        arr

  -- `none` also when there is no fuel: one unit for each level of the recursion.
  unfoldable pub sort_core : ℕ → List A → ℕ → ℕ → Option (List A)
  sort_core zero arr base right_limit = none
  sort_core (suc fuel) arr base right_limit =
      let rest = sort_core fuel in
      if right_limit == 0
      then some arr
      else if leb right_limit 256
      then insertion_sort arr base right_limit
      else (partition arr base right_limit >>= λ r.
          rest r.1 base r.0 >>= λ arr. rest arr (base + (r.0 + 1)) (right_limit - (r.0 + 1)))

  unfoldable pub sort : List A → ℕ → Option (List A)
  sort in_out_data in_size = sort_core (suc in_size) in_out_data 0 in_size
