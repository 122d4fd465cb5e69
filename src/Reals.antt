-- ===== src/Reals.antt =====
-- The type `double` and the operations on it that the programs use. It is a parameter: `IsExact` has
-- the laws of exact arithmetic that some theorems ask for, so these say nothing about rounding.
use optitrust.Prelude.{ℕ, ◌<◌, ◌≡◌, Bool, true, false}
use optitrust.Prelude.Int.{ℤ, pos}

pub record Reals (S : Type 0) : Type 0 where
  pub add : S → S → S
  pub sub : S → S → S
  pub mul : S → S → S
  pub div : S → S → S
  pub fmod : S → S → S
  -- a < b and a >= b
  pub lt : S → S → Bool
  pub ge : S → S → Bool
  -- The conversions from `int` and to `int`.
  pub of_int : ℤ → S
  pub to_int : S → ℤ
  -- The literal -0.5.
  pub neg_half : S

module _ {S : Type 0} (R : Reals S) where
  abbrev pub zero_real : S
  zero_real = R.of_int (pos 0)

  abbrev pub one_real : S
  one_real = R.of_int (pos 1)

  -- Sums and products of exact numbers.
  pub record IsExact : Type 0 where
    pub add_assoc : (a b c : S) → R.add (R.add a b) c ≡ R.add a (R.add b c)
    pub add_comm : (a b : S) → R.add a b ≡ R.add b a
    pub add_zero : (a : S) → R.add a zero_real ≡ a
    pub mul_add : (a b c : S) → R.mul a (R.add b c) ≡ R.add (R.mul a b) (R.mul a c)
    pub mul_one : (a : S) → R.mul a one_real ≡ a
    pub sub_add : (a b : S) → R.add (R.sub a b) b ≡ a

  -- What the wrapping of positions needs of the order, for an axis of length `area` that is cut in
  -- `n` parts: fmod is between -area and area, and truncation and division keep their bounds.
  pub record IsOrdered (area : S) (n : ℕ) : Type 0 where
    pub fmod_lt : (x : S) → R.lt (R.fmod x area) area ≡ true
    pub fmod_gt : (x : S) → R.ge (R.add (R.fmod x area) area) zero_real ≡ true
    pub add_lt : (x : S) → R.ge x zero_real ≡ false → R.lt (R.add x area) area ≡ true
    pub ge_lt : (x : S) → R.ge x zero_real ≡ true → R.lt x zero_real ≡ false
    pub div_ge :
        (x : S)
        → R.ge x zero_real ≡ true
        → R.ge (R.div x (R.div area (R.of_int (pos n)))) zero_real ≡ true
    pub div_lt :
        (x : S)
        → R.ge x zero_real ≡ true
        → R.lt x area ≡ true
        → R.lt (R.div x (R.div area (R.of_int (pos n)))) (R.of_int (pos n)) ≡ true
    pub to_int_lt :
        (x : S)
        → R.ge x zero_real ≡ true
        → R.lt x (R.of_int (pos n)) ≡ true
        → (i : ℕ) × (i < n) × (R.to_int x ≡ pos i)
