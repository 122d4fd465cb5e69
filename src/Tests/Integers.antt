-- ===== src/Tests/Integers.antt =====
-- The integers as an instance of the numbers that the simulation computes with.
use native.Mathlib.Nat.{mod-lt, div-one, div_self}
use optitrust.Prelude.{
  ℕ, suc, ◌+◌, ◌*◌, ◌/◌, ◌<◌, ◌≡◌, refl, ap, ◌∙◌, Bool, true, false, arith, ltb, not,
}
use optitrust.Prelude.Int.{ℤ, pos, negsuc, pos_part, neg_part, sub_ℕ, ◌+ℤ◌, ◌*ℤ◌, ◌%ℤ◌}
use optitrust.Reals.{Reals, IsExact, IsOrdered}

-- The two parts of a difference.
parts : (a b : ℕ) → pos_part (sub_ℕ a b) + b ≡ a + neg_part (sub_ℕ a b)
parts a b = ground arith

sub_ℕ-cong : (a b c d : ℕ) → a + d ≡ c + b → sub_ℕ a b ≡ sub_ℕ c d
sub_ℕ-cong a b c d e = ground arith

sub_ℕ-parts : (z : ℤ) → sub_ℕ (pos_part z) (neg_part z) ≡ z
sub_ℕ-parts (pos n) = ground arith
sub_ℕ-parts (negsuc n) = ground arith

abbrev neg_ℤ : ℤ → ℤ
neg_ℤ z = sub_ℕ (neg_part z) (pos_part z)

abbrev ltb_ℤ : ℤ → ℤ → Bool
ltb_ℤ a b = ltb (pos_part a + neg_part b) (pos_part b + neg_part a)

-- The quotient is that of the absolute values, which is all that is needed of it.
abbrev pub integers : Reals ℤ
integers = record {
  add = λ a b. a +ℤ b;
  sub = λ a b. a +ℤ neg_ℤ b;
  mul = λ a b. a *ℤ b;
  div = λ a b. pos (pos_part a / pos_part b);
  fmod = λ a b. a %ℤ pos_part b;
  lt = λ a b. ltb_ℤ a b;
  ge = λ a b. not (ltb_ℤ a b);
  of_int = λ z. z;
  to_int = λ z. z;
  neg_half = negsuc 0;
}

add_assoc : (a b c : ℤ) → (a +ℤ b) +ℤ c ≡ a +ℤ (b +ℤ c)
unfolding ◌+ℤ◌
add_assoc a b c =
    let left = parts (pos_part a + pos_part b) (neg_part a + neg_part b) in
    let right = parts (pos_part b + pos_part c) (neg_part b + neg_part c) in
    sub_ℕ-cong _ _ _ _ (omega (arith, left, right))

add_comm : (a b : ℤ) → a +ℤ b ≡ b +ℤ a
unfolding ◌+ℤ◌
add_comm a b = sub_ℕ-cong _ _ _ _ (omega arith)

add_zero : (a : ℤ) → a +ℤ pos 0 ≡ a
unfolding ◌+ℤ◌
add_zero a = sub_ℕ-cong _ _ _ _ (omega arith) ∙ sub_ℕ-parts a

mul_add : (a b c : ℤ) → a *ℤ (b +ℤ c) ≡ (a *ℤ b) +ℤ (a *ℤ c)
unfolding ◌+ℤ◌ ◌*ℤ◌
mul_add a b c =
    let sum = parts (pos_part b + pos_part c) (neg_part b + neg_part c) in
    let by_pos = ap (λ (t : ℕ). pos_part a * t) sum in
    let by_neg = ap (λ (t : ℕ). neg_part a * t) sum in
    let left =
      parts (pos_part a * pos_part b + neg_part a * neg_part b)
        (pos_part a * neg_part b + neg_part a * pos_part b) in
    let right =
      parts (pos_part a * pos_part c + neg_part a * neg_part c)
        (pos_part a * neg_part c + neg_part a * pos_part c) in
    sub_ℕ-cong _ _ _ _ (omega (arith, by_pos, by_neg, left, right))

mul_one : (a : ℤ) → a *ℤ pos 1 ≡ a
unfolding ◌*ℤ◌
mul_one a = sub_ℕ-cong _ _ _ _ (omega arith) ∙ sub_ℕ-parts a

sub_add : (a b : ℤ) → (a +ℤ neg_ℤ b) +ℤ b ≡ a
unfolding ◌+ℤ◌
sub_add a b =
    let inner = parts (neg_part b) (pos_part b) in
    let outer = parts (pos_part a + pos_part (neg_ℤ b)) (neg_part a + neg_part (neg_ℤ b)) in
    sub_ℕ-cong _ _ _ _ (omega (arith, inner, outer)) ∙ sub_ℕ-parts a

pub integers-IsExact : IsExact integers
integers-IsExact = record {
  add_assoc = add_assoc;
  add_comm = add_comm;
  add_zero = add_zero;
  mul_add = mul_add;
  mul_one = mul_one;
  sub_add = sub_add;
}

div_one : (a n : ℕ) → 0 < n → a / (n / n) ≡ a
div_one a n h = rw (div_self h) (div-one a)

module _ (n : ℕ) (h : 0 < n) where
  fmod_lt : (x : ℤ) → integers.lt (integers.fmod x (pos n)) (pos n) ≡ true
  unfolding ◌%ℤ◌
  fmod_lt (pos m) = let l = mod-lt m h in ground (arith, l)
  fmod_lt (negsuc m) = ground (arith, h)

  fmod_gt : (x : ℤ) → integers.ge (integers.add (integers.fmod x (pos n)) (pos n)) (pos 0) ≡ true
  unfolding ◌+ℤ◌ ◌%ℤ◌
  fmod_gt (pos m) = ground arith
  fmod_gt (negsuc m) = let l = mod-lt (suc m) h in ground (arith, l)

  add_lt :
      (x : ℤ) → integers.ge x (pos 0) ≡ false → integers.lt (integers.add x (pos n)) (pos n) ≡ true
  unfolding ◌+ℤ◌
  add_lt (pos m) e = ground (arith, e)
  add_lt (negsuc m) e = ground (arith, e)

  ge_lt : (x : ℤ) → integers.ge x (pos 0) ≡ true → integers.lt x (pos 0) ≡ false
  ge_lt (pos m) e = ground arith
  ge_lt (negsuc m) e = ground (arith, e)

  div_lt :
      (x : ℤ)
      → integers.ge x (pos 0) ≡ true
      → integers.lt x (pos n) ≡ true
      → integers.lt (integers.div x (integers.div (pos n) (pos n))) (pos n) ≡ true
  div_lt (pos m) e l = rw (div_one m n h) l
  div_lt (negsuc m) e l = absurd (ground (arith, e))

  to_int_lt :
      (x : ℤ)
      → integers.ge x (pos 0) ≡ true
      → integers.lt x (pos n) ≡ true
      → (i : ℕ) × (i < n) × (x ≡ pos i)
  to_int_lt (pos m) e l = (m, ground (arith, l), refl)
  to_int_lt (negsuc m) e l = absurd (ground (arith, e))

  -- Cells of width one.
  pub integers-IsOrdered : IsOrdered integers (pos n) n
  integers-IsOrdered = record {
    fmod_lt = fmod_lt;
    fmod_gt = fmod_gt;
    add_lt = add_lt;
    ge_lt = ge_lt;
    div_ge = λ x e. ground arith;
    div_lt = div_lt;
    to_int_lt = to_int_lt;
  }
