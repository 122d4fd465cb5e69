-- ===== src/Loops.antt =====
-- The counting loops of the C programs, over a state that an iteration may fail to produce.
pub mod Ensures
pub mod Stride
pub mod Prefix
use optitrust.Prelude.{
  ℕ, zero, suc, ◌+◌, Option, none, some, List, get_elem?, set, ltb, if◌then◌else◌,
}
use optitrust.Prelude.Options.{◌>>=◌}

-- for (int i = first; i < first + left; i++) body(i)
unfoldable pub for_loop : {A : Type 0} → ℕ → ℕ → (ℕ → A → Option A) → A → Option A
for_loop zero first body s = some s
for_loop (suc left) first body s = body first s >>= for_loop left (first + 1) body

-- `d[q] = x`, which has no result out of bounds
unfoldable pub write : {S : Type 0} → List S → ℕ → S → Option (List S)
write d q x = get_elem? d q >>= λ _. some (set d q x)

-- for (int i = first; i < bound; i += step) body(i), with at most `fuel` tests of the condition
unfoldable pub stride_loop : {A : Type 0} → ℕ → ℕ → ℕ → ℕ → (ℕ → A → Option A) → A → Option A
stride_loop zero first bound step body s = none
stride_loop (suc fuel) first bound step body s =
    let rest = stride_loop fuel (first + step) bound step body in
    if ltb first bound then body first s >>= rest else some s

-- The same, with as many tests as a step of at least one can need.
abbrev pub for_by : {A : Type 0} → ℕ → ℕ → ℕ → (ℕ → A → Option A) → A → Option A
for_by first bound step body = stride_loop (suc bound) first bound step body
