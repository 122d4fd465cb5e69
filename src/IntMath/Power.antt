-- ===== src/IntMath/Power.antt =====
-- What int_pow computes.
use native.Mathlib.Nat.{pow-zero, pow-suc, pow-le-pow_right, one-le-pow}
use optitrust.Prelude.{
  ℕ, zero, suc, ◌*◌, ◌/◌, ◌%◌, ◌^◌, ◌<◌, ◌≤◌, ◌≡◌, refl, sym, ◌∙◌, ap, some, ◌==◌, ltb, Bool-cases,
  inl, inr, arith, true,
}
use optitrust.IntMath.{mul_int, int_pow_loop, int_pow}

square_pow : (b h : ℕ) → (b * b) ^ h ≡ b ^ (2 * h)
square_pow b zero = pow-zero (b * b) ∙ sym (pow-zero b)
square_pow b (suc h) =
    let ih = square_pow b h in
    let e : 2 * suc h ≡ suc (suc (2 * h)) = omega arith in
    rw (e, pow-suc (b * b) h, pow-suc b (suc (2 * h)), pow-suc b (2 * h), ih) (omega arith)

mul_int-fits : (a b : ℕ) → a * b < 2 ^ 31 → mul_int a b ≡ some (a * b)
unfolding mul_int
mul_int-fits a b h = (let t : ltb (a * b) (2 ^ 31) ≡ true = ground arith in rw t refl)

grow : (r n : ℕ) → 0 < r → n ≤ r * n
grow zero n pos = absurd (omega arith)
grow (suc r) n pos = omega arith

positive : (a b : ℕ) → 0 < a → 0 < b → 0 < a * b
positive a b pa pb = (let more = grow a b pa in omega (arith, more))

square_fits :
    (result base exp : ℕ)
    → 0 < base
    → 0 < result
    → 0 < exp
    → result * base ^ (2 * exp) < 2 ^ 31
    → base * base < 2 ^ 31
square_fits result base exp pos pr pe fits =
    let two : base ^ 2 ≡ base * base =
      pow-suc base 1
      ∙ ap (λ (n : ℕ). n * base)
          (pow-suc base 0 ∙ ap (λ (n : ℕ). n * base) (pow-zero base) ∙ omega arith) in
    let up : base ^ 2 ≤ base ^ (2 * exp) = pow-le-pow_right pos (omega arith) in
    let more = grow result (base ^ (2 * exp)) pr in omega (arith, two, up, more, fits)

-- The last square that the loop computes is the base to a power of at most twice the exponent.
int_pow_loop-power :
    (fuel result base exp : ℕ)
    → exp < fuel
    → 0 < base
    → 0 < result
    → result * base ^ (2 * exp) < 2 ^ 31
    → int_pow_loop fuel result base exp ≡ some (result * base ^ exp)
unfolding int_pow_loop
int_pow_loop-power zero result base exp enough pos pr fits = absurd (omega arith)
int_pow_loop-power (suc fuel) result base exp enough pos pr fits = elim (Bool-cases (exp == 0)) [
  | inl e ↦ (let z : exp ≡ 0 = ground arith in rw (e, z, pow-zero base) (ap some (omega arith)))
  | inr e ↦ elim (Bool-cases (exp % 2 == 1)) [
    | inl o ↦
        (let h : exp ≡ suc (2 * (exp / 2)) = ground arith in
          let pe : 0 < exp = ground arith in
          let q = (base * base) ^ (2 * (exp / 2)) in
          let twice : 2 * exp ≡ suc (suc (2 * (2 * (exp / 2)))) = omega (arith, h) in
          let power : base ^ (2 * exp) ≡ q * base * base =
            ap (λ (n : ℕ). base ^ n) twice
            ∙ pow-suc base _
            ∙ ap (λ (n : ℕ). n * base)
                (pow-suc base _
                  ∙ ap (λ (n : ℕ). n * base) (sym (square_pow base (2 * (exp / 2))))) in
          let less = grow base (result * base * q) pos in
          let some_q =
            grow q (result * base)
              (one-le-pow (2 * (exp / 2)) (base * base) (positive base base pos pos)) in
          let fits' : result * (q * base * base) < 2 ^ 31 = rw (sym power) fits in
          let odd_fits : result * base * q < 2 ^ 31 = omega (arith, less, fits') in
          rw
            (
              e,
              o,
              mul_int-fits result base (omega (arith, some_q, odd_fits)),
              mul_int-fits base base (square_fits result base exp pos pr pe fits),
            )
            (int_pow_loop-power fuel (result * base) (base * base) (exp / 2) (omega arith)
                (positive base base pos pos) (positive result base pr pos) odd_fits
              ∙ ap some (
                  let p = square_pow base (exp / 2) in
                  let r : base ^ exp ≡ base ^ (2 * (exp / 2)) * base =
                    ap (λ (n : ℕ). base ^ n) h ∙ pow-suc base _ in
                  rw (p, r) (omega arith))))
    | inr o ↦
        (let h : exp ≡ 2 * (exp / 2) = ground arith in
          let pe : 0 < exp = ground arith in
          let twice : 2 * exp ≡ 2 * (2 * (exp / 2)) = omega (arith, h) in
          let power : base ^ (2 * exp) ≡ (base * base) ^ (2 * (exp / 2)) =
            ap (λ (n : ℕ). base ^ n) twice ∙ sym (square_pow base (2 * (exp / 2))) in
          rw (e, o, mul_int-fits base base (square_fits result base exp pos pr pe fits))
            (int_pow_loop-power fuel result (base * base) (exp / 2) (omega arith)
                (positive base base pos pos) pr (rw (sym power) fits)
              ∙ ap (λ (n : ℕ). some (result * n))
                  (square_pow base (exp / 2) ∙ ap (λ (n : ℕ). base ^ n) (sym h))))
  ]
]

-- For a base of at least one whose power of twice the exponent fits an int: int_pow ends without an
-- overflow, and returns the power.
pub int_pow-power :
    (base exp : ℕ) → 0 < base → base ^ (2 * exp) < 2 ^ 31 → int_pow base exp ≡ some (base ^ exp)
unfolding int_pow
int_pow-power base exp pos fits =
    int_pow_loop-power (suc exp) 1 base exp (omega arith) pos (omega arith) (omega (arith, fits))
    ∙ ap some (omega arith)
