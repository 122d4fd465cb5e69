-- ===== src/Prelude/Fields.antt =====
-- Numbers written in two digits: `a * b + r` with `r` below the base `b`.
use Prim.Native.Nat.{ℕ, suc, ◌+◌, ◌*◌, ◌/◌, ◌%◌, ◌<◌}
use mathlib.Core.Path.{◌≡◌, ◌∙◌, ap, sym}
use native.Mathlib.Nat.{
  mul-add-div_right, mul-add-mod_self_right, mod-eq_of_lt, div-eq_of_lt, mul-le-mul_right,
  div-lt_iff_lt-mul,
}
use native.Mathlib.Omega.{arith}

module _ (a r b : ℕ) (fits : r < b) where
  pub div_fields : (a * b + r) / b ≡ a
  div_fields = omega (arith, mul-add-div_right {m = b} (omega arith) a r, div-eq_of_lt fits)

  pub mod_fields : (a * b + r) % b ≡ r
  mod_fields = mul-add-mod_self_right a b r ∙ mod-eq_of_lt fits

  pub fields_lt : (n : ℕ) → a < n → a * b + r < n * b
  fields_lt n h = omega (arith, mul-le-mul_right {m = suc a} {n = n} b h)

-- The upper digit of a number below `n * b` is below `n`.
pub div_lt : (n b x : ℕ) → 0 < b → x < n * b → x / b < n
div_lt n b x pos h = (div-lt_iff_lt-mul pos).1 h

-- Both digits can be read off.
pub fields-injective :
    (a r a' r' b : ℕ) → r < b → r' < b → a * b + r ≡ a' * b + r' → (a ≡ a') × (r ≡ r')
fields-injective a r a' r' b h h' e = (
  sym (div_fields a r b h) ∙ ap (λ (t : ℕ). t / b) e ∙ div_fields a' r' b h',
  sym (mod_fields a r b h) ∙ ap (λ (t : ℕ). t % b) e ∙ mod_fields a' r' b h',
)
