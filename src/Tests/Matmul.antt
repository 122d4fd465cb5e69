-- ===== src/Tests/Matmul.antt =====
-- Products of small matrices, and of matrices of 1024 by 1024 equal elements.
use optitrust.Prelude.{
  ℕ, zero, suc, ◌+◌, ◌*◌, ◌<◌, ◌≡◌, refl, ap, Option, some, List, [], ◌∷◌, arith, length, get_elem?,
}
use optitrust.Prelude.Int.{ℤ, pos, negsuc}
use optitrust.Matmul.{Uninitialised}
use optitrust.Matmul.Arrays.{contents}
use optitrust.Matmul.Tile.{dot}
use optitrust.Matmul.Reference.{mm}
use optitrust.Matmul.Reference
use optitrust.Matmul.OutStatic
use optitrust.Matmul.OutDynamic
use optitrust.Matmul.OutStack
use optitrust.Matmul.OutGoal
use optitrust.Matmul.Rise
use optitrust.Matmul.RiseAutosimd
use optitrust.Matmul.RiseNotmp
use optitrust.Matmul.RiseNotmpAutosimd
use optitrust.Matmul.CseBits
use optitrust.Matmul.CseAutosimd
use optitrust.Matmul.Exp
use optitrust.Matmul.CheckExp
use optitrust.Matmul.InnerTranspose
use optitrust.Matmul.InnerTranspose2
use optitrust.Matmul.Equivalence.{
  mm1024-dot, out-mm1024, rise-mm1024, cse-mm1024, exp-mm1024, inner_transpose-mm1024,
}
use optitrust.Tests.Integers.{integers}

-- A matrix of 2 by 3 times one of 3 by 2, over what C held before.
mm_small :
    mm integers
      (pos 9 ∷ pos 9 ∷ pos 9 ∷ pos 9 ∷ [])
      (pos 1 ∷ pos 2 ∷ pos 3 ∷ pos 4 ∷ pos 5 ∷ negsuc 0 ∷ [])
      (pos 1 ∷ pos 0 ∷ pos 0 ∷ pos 1 ∷ pos 2 ∷ pos 2 ∷ [])
      2
      2
      3
    ≡ some (pos 7 ∷ pos 8 ∷ pos 2 ∷ pos 3 ∷ [])
unfolding mm optitrust.Loops.for_loop optitrust.Matrix.mindex2 optitrust.Loops.write
    optitrust.Prelude.Int.◌+ℤ◌ optitrust.Prelude.Int.◌*ℤ◌
mm_small = refl

abbrev constant : ℕ → ℤ → List ℤ
constant zero x = []
constant (suc n) x = x ∷ constant n x

length-constant : (n : ℕ) (x : ℤ) → length (constant n x) ≡ n
length-constant zero x = refl
length-constant (suc n) x = ap suc (length-constant n x)

abbrev memory : Uninitialised ℤ
memory = record {
  cells = λ at n. constant n (pos 5);
  length_cells = λ at n. length-constant n (pos 5);
}

abbrev size : ℕ
size = 1048576

mm1024-dot_example :
    (C' : List ℤ) × (Reference.mm1024 integers
        (constant size (pos 9))
        (constant size (pos 2))
        (constant size (negsuc 2))
      ≡ some C')
    × (length C' ≡ 1048576)
    × ((i j : ℕ)
        → i < 1024
        → j < 1024
        → get_elem? C' (1024 * i + j)
          ≡ some (
              dot integers
                (contents integers (constant size (pos 2)))
                (contents integers (constant size (negsuc 2)))
                1024
                i
                j))
mm1024-dot_example =
    mm1024-dot integers (constant size (pos 9)) (constant size (pos 2)) (constant size (negsuc 2))
      (length-constant size (pos 9)) (length-constant size (pos 2))
      (length-constant size (negsuc 2))

out-mm1024_example :
    (OutStatic.mm1024 integers memory
        (constant size (pos 9))
        (constant size (pos 2))
        (constant size (negsuc 2))
      ≡ Reference.mm1024 integers
          (constant size (pos 9))
          (constant size (pos 2))
          (constant size (negsuc 2)))
    × (OutDynamic.mm1024 integers memory
          (constant size (pos 9))
          (constant size (pos 2))
          (constant size (negsuc 2))
        ≡ Reference.mm1024 integers
            (constant size (pos 9))
            (constant size (pos 2))
            (constant size (negsuc 2)))
    × (OutStack.mm1024 integers memory
          (constant size (pos 9))
          (constant size (pos 2))
          (constant size (negsuc 2))
        ≡ Reference.mm1024 integers
            (constant size (pos 9))
            (constant size (pos 2))
            (constant size (negsuc 2)))
    × (OutGoal.mm1024 integers memory
          (constant size (pos 9))
          (constant size (pos 2))
          (constant size (negsuc 2))
        ≡ Reference.mm1024 integers
            (constant size (pos 9))
            (constant size (pos 2))
            (constant size (negsuc 2)))
out-mm1024_example =
    out-mm1024 integers memory (constant size (pos 9)) (constant size (pos 2))
      (constant size (negsuc 2)) (length-constant size (pos 9)) (length-constant size (pos 2))
      (length-constant size (negsuc 2))

rise-mm1024_example :
    (Rise.mm1024 integers memory
        (constant size (pos 9))
        (constant size (pos 2))
        (constant size (negsuc 2))
      ≡ Reference.mm1024 integers
          (constant size (pos 9))
          (constant size (pos 2))
          (constant size (negsuc 2)))
    × (RiseAutosimd.mm1024 integers memory
          (constant size (pos 9))
          (constant size (pos 2))
          (constant size (negsuc 2))
        ≡ Reference.mm1024 integers
            (constant size (pos 9))
            (constant size (pos 2))
            (constant size (negsuc 2)))
    × (RiseNotmp.mm1024 integers memory
          (constant size (pos 9))
          (constant size (pos 2))
          (constant size (negsuc 2))
        ≡ Reference.mm1024 integers
            (constant size (pos 9))
            (constant size (pos 2))
            (constant size (negsuc 2)))
    × (RiseNotmpAutosimd.mm1024 integers memory
          (constant size (pos 9))
          (constant size (pos 2))
          (constant size (negsuc 2))
        ≡ Reference.mm1024 integers
            (constant size (pos 9))
            (constant size (pos 2))
            (constant size (negsuc 2)))
rise-mm1024_example =
    rise-mm1024 integers memory (constant size (pos 9)) (constant size (pos 2))
      (constant size (negsuc 2)) (length-constant size (pos 9)) (length-constant size (pos 2))
      (length-constant size (negsuc 2))

cse-mm1024_example :
    (CseBits.mm1024 integers memory
        (constant size (pos 9))
        (constant size (pos 2))
        (constant size (negsuc 2))
      ≡ Reference.mm1024 integers
          (constant size (pos 9))
          (constant size (pos 2))
          (constant size (negsuc 2)))
    × (CseAutosimd.mm1024 integers memory
          (constant size (pos 9))
          (constant size (pos 2))
          (constant size (negsuc 2))
        ≡ Reference.mm1024 integers
            (constant size (pos 9))
            (constant size (pos 2))
            (constant size (negsuc 2)))
cse-mm1024_example =
    cse-mm1024 integers memory (constant size (pos 9)) (constant size (pos 2))
      (constant size (negsuc 2)) (length-constant size (pos 9)) (length-constant size (pos 2))
      (length-constant size (negsuc 2))

inner_transpose-mm1024_example :
    (InnerTranspose.mm1024 integers memory
        (constant size (pos 9))
        (constant size (pos 2))
        (constant size (negsuc 2))
      ≡ Reference.mm1024 integers
          (constant size (pos 9))
          (constant size (pos 2))
          (constant size (negsuc 2)))
    × (InnerTranspose2.mm1024 integers memory
          (constant size (pos 9))
          (constant size (pos 2))
          (constant size (negsuc 2))
        ≡ Reference.mm1024 integers
            (constant size (pos 9))
            (constant size (pos 2))
            (constant size (negsuc 2)))
inner_transpose-mm1024_example =
    inner_transpose-mm1024 integers memory (constant size (pos 9)) (constant size (pos 2))
      (constant size (negsuc 2)) (length-constant size (pos 9)) (length-constant size (pos 2))
      (length-constant size (negsuc 2))

exp-mm1024_example :
    (Exp.mm1024 integers memory
        (constant size (pos 9))
        (constant size (pos 2))
        (constant size (negsuc 2))
      ≡ Reference.mm1024 integers
          (constant size (pos 9))
          (constant size (pos 2))
          (constant size (negsuc 2)))
    × (CheckExp.mm1024 integers memory
          (constant size (pos 9))
          (constant size (pos 2))
          (constant size (negsuc 2))
        ≡ Reference.mm1024 integers
            (constant size (pos 9))
            (constant size (pos 2))
            (constant size (negsuc 2)))
exp-mm1024_example =
    exp-mm1024 integers memory (constant size (pos 9)) (constant size (pos 2))
      (constant size (negsuc 2)) (length-constant size (pos 9)) (length-constant size (pos 2))
      (length-constant size (negsuc 2))
