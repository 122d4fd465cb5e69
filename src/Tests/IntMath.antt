-- ===== src/Tests/IntMath.antt =====
-- Powers, rounding, and the extremes of four numbers.
use optitrust.Prelude.{
  ℕ, ◌+◌, ◌-◌, ◌*◌, ◌^◌, ◌<◌, ◌≤◌, ◌≡◌, ◌⊎◌, refl, none, some, List, [], ◌∷◌, arith,
}
use optitrust.Prelude.Int.{ℤ, pos, negsuc, ◌≤ℤ◌}
use optitrust.IntMath.{
  int_pow, is_even, lowest_even_number_greater_or_equal_than, ceiling, int_array_max, int_array_min,
}
use optitrust.IntMath.Power.{int_pow-power}
use optitrust.IntMath.Extremes.{Extreme, int_array-Extreme}
use optitrust.IntMath.Rounding.{Twice, lowest_even-Least, ceiling-Least}

int_pow_small : int_pow 3 5 ≡ some 243
unfolding int_pow optitrust.IntMath.int_pow_loop optitrust.IntMath.mul_int
int_pow_small = refl

-- The power fits an int, and the loop squares the base once more than it needs.
int_pow_overflow : int_pow 10 9 ≡ none
unfolding int_pow optitrust.IntMath.int_pow_loop optitrust.IntMath.mul_int
int_pow_overflow = refl

-- Signed numbers, all of them negative.
abbrev numbers : List ℤ
numbers = negsuc 3 ∷ negsuc 9 ∷ negsuc 2 ∷ negsuc 5 ∷ []

max_small : int_array_max numbers 4 ≡ some (negsuc 2)
unfolding int_array_max optitrust.Loops.for_loop
max_small = refl

min_small : int_array_min numbers 4 ≡ some (negsuc 9)
unfolding int_array_min optitrust.Loops.for_loop
min_small = refl

lowest_even_negative : lowest_even_number_greater_or_equal_than (negsuc 6) ≡ some (negsuc 5)
unfolding lowest_even_number_greater_or_equal_than is_even optitrust.IntMath.add_int
lowest_even_negative = refl

-- The ceiling of -4 / 3 is -1.
ceiling_negative : ceiling (negsuc 3) (pos 3) ≡ some (pos 0)
unfolding ceiling optitrust.IntMath.add_long optitrust.IntMath.div_long
    optitrust.IntMath.int_of_long
ceiling_negative = refl

-- The quotient 2^40 is converted to an int.
ceiling_narrowed : ceiling (pos (2 ^ 40)) (pos 1) ≡ some (pos 0)
unfolding ceiling optitrust.IntMath.add_long optitrust.IntMath.div_long
    optitrust.IntMath.int_of_long
ceiling_narrowed = refl

int_pow-power_example : int_pow 3 5 ≡ some (3 ^ 5)
int_pow-power_example = int_pow-power 3 5 (omega arith) (omega arith)

lowest_even-Least_example :
    ((negsuc 6 ≡ pos (2 ^ 31 - 1)) × (lowest_even_number_greater_or_equal_than (negsuc 6) ≡ none))
    ⊎ ((m : ℤ) × (lowest_even_number_greater_or_equal_than (negsuc 6) ≡ some m)
        × Twice m
        × (negsuc 6 ≤ℤ m)
        × ((k : ℤ) → Twice k → negsuc 6 ≤ℤ k → m ≤ℤ k))
lowest_even-Least_example = lowest_even-Least (negsuc 6) (omega arith) (omega arith)

int_array-Extreme_example :
    ((m : ℤ) × (int_array_max numbers 4 ≡ some m) × Extreme (λ x m. x ≤ℤ m) numbers 4 m)
    × ((m : ℤ) × (int_array_min numbers 4 ≡ some m) × Extreme (λ x m. m ≤ℤ x) numbers 4 m)
int_array-Extreme_example = int_array-Extreme numbers 4 refl (omega arith)

ceiling-Least_example :
    (c : ℕ) × (ceiling (pos 17) (pos 5) ≡ some (pos c)) × (17 ≤ 5 * c + 0) × (5 * c + 0 < 17 + 5)
ceiling-Least_example = ceiling-Least (pos 17) 5 (omega arith) (omega arith) (omega arith)
