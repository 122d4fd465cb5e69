-- ===== src/IntMath/Rounding.antt =====
-- Rounding up: to an even number, and to a multiple of a divisor.
use native.Mathlib.Nat.{mul-div-le, lt-mul-div-succ}
use optitrust.Prelude.{
  ℕ, suc, ◌+◌, ◌-◌, ◌*◌, ◌/◌, ◌^◌, ◌<◌, ◌≤◌, ◌≡◌, refl, ap, some, none, ◌==◌, Bool-cases, div_lt,
  ◌⊎◌, inl, inr, arith, true, false,
}
use optitrust.Prelude.Int.{ℤ, pos, negsuc, pos_part, neg_part, ◌≤ℤ◌, ◌+ℤ◌, ◌%ℤ◌, ◌/ℤ◌}
use optitrust.IntMath.{
  add_int, add_long, div_long, int_of_long, ceiling, is_even,
  lowest_even_number_greater_or_equal_than,
}

-- Twice a number, or the opposite of that.
abbrev pub Twice : ℤ → Type 0
Twice a = (k : ℕ) × (pos_part a + neg_part a ≡ 2 * k)

is_even-Twice : (a : ℤ) → is_even a ≡ true → Twice a
unfolding is_even ◌%ℤ◌
is_even-Twice (pos n) e = (n / 2, ground arith)
is_even-Twice (negsuc n) e = (suc n / 2, ground arith)

add_int-one :
    (a : ℤ) → pos_part a + 1 < 2 ^ 31 → neg_part a ≤ 2 ^ 31 → add_int a (pos 1) ≡ some (a +ℤ pos 1)
unfolding add_int ◌+ℤ◌
add_int-one (pos n) h l = ground arith
add_int-one (negsuc n) h l = ground arith

Twice-next : (a : ℤ) → is_even a ≡ false → Twice (a +ℤ pos 1)
unfolding is_even ◌%ℤ◌ ◌+ℤ◌
Twice-next (pos n) e = ((n + 1) / 2, ground arith)
Twice-next (negsuc n) e = (n / 2, ground arith)

≤-next : (a : ℤ) → a ≤ℤ (a +ℤ pos 1)
unfolding ◌+ℤ◌
≤-next a = ground arith

next-≤ : (a k : ℤ) → is_even a ≡ false → Twice k → a ≤ℤ k → (a +ℤ pos 1) ≤ℤ k
unfolding is_even ◌%ℤ◌ ◌+ℤ◌
next-≤ (pos n) (pos k) e (h, eh) l = ground arith
next-≤ (pos n) (negsuc k) e (h, eh) l = ground arith
next-≤ (negsuc n) (pos k) e (h, eh) l = ground arith
next-≤ (negsuc n) (negsuc k) e (h, eh) l = ground arith

int_max_overflow :
    (n : ℤ) → pos_part n ≡ 2 ^ 31 - 1 → (n ≡ pos (2 ^ 31 - 1)) × (add_int n (pos 1) ≡ none)
unfolding add_int ◌+ℤ◌
int_max_overflow (pos n) e = (ap pos e, ground arith)
int_max_overflow (negsuc n) e = absurd (omega (arith, e))

-- For an int: lowest_even_number_greater_or_equal_than has no result at the largest int, where n + 1
-- overflows. For every other it returns an even number that is at least n, and no even number from n on
-- is smaller.
pub lowest_even-Least :
    (n : ℤ)
    → pos_part n < 2 ^ 31
    → neg_part n ≤ 2 ^ 31
    → ((n ≡ pos (2 ^ 31 - 1)) × (lowest_even_number_greater_or_equal_than n ≡ none))
      ⊎ ((m : ℤ) × (lowest_even_number_greater_or_equal_than n ≡ some m)
          × Twice m
          × (n ≤ℤ m)
          × ((k : ℤ) → Twice k → n ≤ℤ k → m ≤ℤ k))
unfolding lowest_even_number_greater_or_equal_than
lowest_even-Least n high low = elim (Bool-cases (is_even n)) [
  | inl e ↦ rw e (inr (n, refl, is_even-Twice n e, omega arith, λ k _ h. h))
  | inr e ↦ elim (Bool-cases (pos_part n == 2 ^ 31 - 1)) [
    | inl t ↦ let (at, over) = int_max_overflow n (ground arith) in rw e (inl (at, over))
    | inr t ↦
        rw (e, add_int-one n (ground arith) low)
          (inr (n +ℤ pos 1, refl, Twice-next n e, ≤-next n, λ k ek h. next-≤ n k e ek h))
  ]
]

add_long-pos :
    (a : ℤ) (m : ℕ)
    → neg_part a < m
    → pos_part a + m < 2 ^ 63
    → add_long a (pos m) ≡ some (pos (pos_part a + m - neg_part a))
unfolding add_long ◌+ℤ◌
add_long-pos a m h f = ground arith

add_long-minus_one : (x : ℕ) → 0 < x → x < 2 ^ 63 → add_long (pos x) (negsuc 0) ≡ some (pos (x - 1))
unfolding add_long ◌+ℤ◌
add_long-minus_one x h f = ground arith

div_long-pos : (x m : ℕ) → 0 < m → x / m < 2 ^ 63 → div_long (pos x) (pos m) ≡ some (pos (x / m))
unfolding div_long ◌/ℤ◌
div_long-pos x m h f = ground arith

int_of_long-pos : (x : ℕ) → x < 2 ^ 31 → int_of_long (pos x) ≡ pos x
unfolding int_of_long ◌+ℤ◌ ◌%ℤ◌
int_of_long-pos x h = ground arith

-- For a divisor of at least one, a dividend above its opposite, a sum of the two that fits a long, and a
-- result that fits an int: ceiling returns the least number that, times the divisor, is at least the
-- dividend.
pub ceiling-Least :
    (a : ℤ) (b : ℕ)
    → neg_part a < b
    → pos_part a + b < 2 ^ 63
    → pos_part a ≤ b * (2 ^ 31 - 1)
    → (c : ℕ) × (ceiling a (pos b) ≡ some (pos c))
      × (pos_part a ≤ b * c + neg_part a)
      × (b * c + neg_part a < pos_part a + b)
unfolding ceiling
ceiling-Least a b above long int =
    let x : ℕ = pos_part a + b - neg_part a in
    let under = mul-div-le (x - 1) b in
    let over = lt-mul-div-succ (x - 1) {b = b} (omega arith) in
    let small : (x - 1) / b < 2 ^ 31 = div_lt (2 ^ 31) b (x - 1) (omega arith) (omega arith) in
    rw
      (
        add_long-pos a b above long,
        add_long-minus_one x (omega arith) (omega arith),
        div_long-pos (x - 1) b (omega arith) (omega (arith, small)),
        int_of_long-pos ((x - 1) / b) small,
      )
      ((x - 1) / b, refl, omega (arith, over), omega (arith, under))
