-- ===== src/Matmul.antt =====
-- The matrix products of case_studies/matmul: the plain product of matmul.cpp and the programs that
-- compute it by blocks. This file has what they share: arrays of floats and the loops over them.
pub mod Arrays
pub mod Pack
pub mod Tile
pub mod Row
pub mod Blocks
pub mod PackedRow
pub mod Reference
pub mod OutStatic
pub mod OutDynamic
pub mod OutStack
pub mod OutGoal
pub mod Rise
pub mod RiseAutosimd
pub mod RiseNotmp
pub mod RiseNotmpAutosimd
pub mod CseBits
pub mod CseAutosimd
pub mod InnerTranspose
pub mod InnerTranspose2
pub mod Exp
pub mod CheckExp
pub mod Equivalence
use optitrust.Prelude.{ℕ, ◌+◌, ◌*◌, ◌/◌, ◌^◌, ◌≡◌, length, Option, some, List, set, get_elem?}
use optitrust.Prelude.Options.{◌>>=◌}
use optitrust.Loops.{for_loop, write}
use optitrust.Reals.{Reals, zero_real}

-- `x << n`, for an `int` that does not overflow
infixl 60 ◌<<◌
abbrev pub ◌<<◌ : ℕ → ℕ → ℕ
x << n = x * 2 ^ n

unfoldable pub exact_div : ℕ → ℕ → ℕ
exact_div n b = n / b

-- The memory that malloc and a local array give: `cells at n` is what `n` floats hold before they
-- are written, for the iterations `at` that allocate them.
pub record Uninitialised (S : Type 0) : Type 0 where
  pub cells : List ℕ → ℕ → List S
  pub length_cells : (at : List ℕ) (n : ℕ) → length (cells at n) ≡ n

-- for (int j = 0; j < n; j++) dst[d(j)] = src[s(j)]
unfoldable pub copy : {S : Type 0} → ℕ → List S → (ℕ → ℕ) → List S → (ℕ → ℕ) → Option (List S)
copy n dst d src s = for_loop n 0 (λ j t. get_elem? src (s j) >>= write t (d j)) dst

-- memcpy(&dst[d], &src[s], sizeof(float[n]))
abbrev pub memcpy : {S : Type 0} → ℕ → List S → ℕ → List S → ℕ → Option (List S)
memcpy n dst d src s = copy n dst (λ j. d + j) src (λ j. s + j)

-- for (int j = 0; j < n; j++) dst[d(j)] = x
unfoldable pub fill : {S : Type 0} → ℕ → List S → (ℕ → ℕ) → S → Option (List S)
fill n dst d x = for_loop n 0 (λ j t. write t (d j) x) dst

-- The buffers of a thread that reuses them, and C.
pub record Work (S : Type 0) : Type 0 where
  pub packed : List S
  pub sum : List S
  pub out : List S

module _ {S : Type 0} (R : Reals S) where
  -- memset(dst, 0, sizeof(float[n]))
  abbrev pub clear : ℕ → List S → Option (List S)
  clear n dst = fill n dst (λ j. j) (zero_real R)

  -- for (int j = 0; j < n; j++) dst[d(j)] += a[p] * b[q(j)]
  unfoldable pub add_multiples :
      ℕ → List S → (ℕ → ℕ) → List S → ℕ → List S → (ℕ → ℕ) → Option (List S)
  add_multiples n dst d a p b q =
      for_loop n 0
        (λ j t. do
          x ← get_elem? a p
          y ← get_elem? b (q j)
          old ← get_elem? t (d j)
          write t (d j) (R.add old (R.mul x y)))
        dst
