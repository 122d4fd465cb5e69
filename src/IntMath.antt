-- ===== src/IntMath.antt =====
-- The integer functions of case_studies/pic/include/math_functions.h, on signed numbers but for int_pow,
-- whose base and exponent are not negative. A value that does not fit its type, which C leaves undefined,
-- has no result.
pub mod Power
pub mod Rounding
pub mod Extremes
use optitrust.Prelude.{
  ℕ, zero, suc, ◌*◌, ◌/◌, ◌%◌, ◌^◌, ◌+◌, ◌-◌, Bool, ◌&&◌, Option, none, some, ◌==◌, ltb, leb,
  if◌then◌else◌, List, get_elem?,
}
use optitrust.Prelude.Int.{ℤ, pos, negsuc, pos_part, neg_part, eqb_ℤ, ltb_ℤ, ◌+ℤ◌, ◌/ℤ◌, ◌%ℤ◌}
use optitrust.Prelude.Options.{◌>>=◌}
use optitrust.Loops.{for_loop}

unfoldable pub mul_int : ℕ → ℕ → Option ℕ
mul_int a b = if ltb (a * b) (2 ^ 31) then some (a * b) else none

-- The loop of int_pow, with one unit of fuel for each test of its condition.
unfoldable pub int_pow_loop : ℕ → ℕ → ℕ → ℕ → Option ℕ
int_pow_loop zero result base exp = none
int_pow_loop (suc fuel) result base exp =
    let rest = int_pow_loop fuel in
    if exp == 0
    then some result
    else ((if exp % 2 == 1 then mul_int result base else some result) >>= λ result.
        mul_int base base >>= λ square. rest result square (exp / 2))

unfoldable pub int_pow : ℕ → ℕ → Option ℕ
int_pow base exp = int_pow_loop (suc exp) 1 base exp

-- The values of a signed type whose largest is `limit - 1`.
abbrev pub fits : ℕ → ℤ → Bool
fits limit a = ltb (pos_part a) limit && leb (neg_part a) limit

abbrev pub fitting : ℕ → ℤ → Option ℤ
fitting limit a = if fits limit a then some a else none

abbrev pub int_limit : ℕ
int_limit = 2 ^ 31

abbrev pub long_limit : ℕ
long_limit = 2 ^ 63

unfoldable pub add_int : ℤ → ℤ → Option ℤ
unfolding ◌+ℤ◌
add_int a b = fitting int_limit (a +ℤ b)

unfoldable pub add_long : ℤ → ℤ → Option ℤ
unfolding ◌+ℤ◌
add_long a b = fitting long_limit (a +ℤ b)

-- A divisor of 0 has no quotient.
unfoldable pub div_long : ℤ → ℤ → Option ℤ
unfolding ◌/ℤ◌
div_long a b = if eqb_ℤ b (pos 0) then none else fitting long_limit (a /ℤ b)

-- The conversion of a long to an int, by the low 32 bits.
unfoldable pub int_of_long : ℤ → ℤ
unfolding ◌+ℤ◌ ◌%ℤ◌
int_of_long a =
    ((a +ℤ pos int_limit) %ℤ (2 ^ 32) +ℤ pos (2 ^ 32)) %ℤ (2 ^ 32) +ℤ negsuc (int_limit - 1)

unfoldable pub is_even : ℤ → Bool
unfolding ◌%ℤ◌
is_even a = eqb_ℤ (a %ℤ 2) (pos 0)

unfoldable pub lowest_even_number_greater_or_equal_than : ℤ → Option ℤ
lowest_even_number_greater_or_equal_than n = if is_even n then some n else add_int n (pos 1)

unfoldable pub ceiling : ℤ → ℤ → Option ℤ
ceiling a b = do
  sum ← add_long a b
  sum' ← add_long sum (negsuc 0)
  quotient ← div_long sum' b
  some (int_of_long quotient)

unfoldable pub int_array_max : List ℤ → ℕ → Option ℤ
int_array_max array size = do
  max ← get_elem? array 0
  for_loop (size - 1) 1 (λ i max. do x ← get_elem? array i; some (if ltb_ℤ max x then x else max))
      max

unfoldable pub int_array_min : List ℤ → ℕ → Option ℤ
int_array_min array size = do
  min ← get_elem? array 0
  for_loop (size - 1) 1 (λ i min. do x ← get_elem? array i; some (if ltb_ℤ x min then x else min))
      min
