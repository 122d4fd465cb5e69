-- ===== src/Matmul/Equivalence.antt =====
-- The programs of case_studies/matmul compute what matmul.cpp computes, element for element and with
-- the additions in the same order, so that the equations hold for floats too.
use optitrust.Prelude.{
  ℕ, ◌+◌, ◌*◌, ◌/◌, ◌%◌, ◌<◌, ◌≡◌, refl, ◌∙◌, ap, Option, some, List, arith, length, get_elem?,
}
use optitrust.Loops.Ensures.{Ensures, yields, result-Ensures}
use optitrust.Reals.{Reals}
use optitrust.Matmul.{Uninitialised}
use optitrust.Matmul.Arrays.{Holds, Holds-unique, contents, contents-Holds}
use optitrust.Matmul.Tile.{dot, product}
use optitrust.Matmul.Reference
use optitrust.Matmul.OutStatic
use optitrust.Matmul.OutDynamic
use optitrust.Matmul.OutStack
use optitrust.Matmul.OutGoal
use optitrust.Matmul.Rise
use optitrust.Matmul.RiseAutosimd
use optitrust.Matmul.RiseNotmp
use optitrust.Matmul.RiseNotmpAutosimd
use optitrust.Matmul.CseBits
use optitrust.Matmul.CseAutosimd
use optitrust.Matmul.Exp
use optitrust.Matmul.CheckExp
use optitrust.Matmul.InnerTranspose
use optitrust.Matmul.InnerTranspose2

module _ {S : Type 0} (R : Reals S) where
  -- For matrices of 1024 by 1024 elements, the plain product returns a matrix of that size whose
  -- element in row i and column j is the sum of the products of row i of A with column j of B, added
  -- from the left.
  pub mm1024-dot :
      (C A B : List S)
      → length C ≡ 1048576
      → length A ≡ 1048576
      → length B ≡ 1048576
      → (C' : List S) × (Reference.mm1024 R C A B ≡ some C')
        × (length C' ≡ 1048576)
        × ((i j : ℕ)
            → i < 1024
            → j < 1024
            → get_elem? C' (1024 * i + j) ≡ some (dot R (contents R A) (contents R B) 1024 i j))
  mm1024-dot C A B hC hA hB =
      let (C', e, holds) = result-Ensures (
        Reference.mm1024-lem R (contents R A) (contents R B) C A B hC
          (contents-Holds R 1048576 A hA) (contents-Holds R 1048576 B hB)) in
      (
        C',
        e,
        holds.size,
        λ i j hi hj.
            (let row : (1024 * i + j) / 1024 ≡ i = omega arith in
              let column : (1024 * i + j) % 1024 ≡ j = omega arith in
              holds.elem (1024 * i + j) (omega arith) ∙ rw (row, column) refl),
      )

module _ {S : Type 0} where
  same_result :
      {m : ℕ} {f : ℕ → S} {c d : Option (List S)}
      → Ensures (Holds m f) c
      → Ensures (Holds m f) d
      → c ≡ d
  same_result (yields {x} hc) (yields {x = y} hd) = ap some (Holds-unique x y hc hd)

module _ {S : Type 0} (R : Reals S) (u : Uninitialised S) (C A B : List S) (hC : length C ≡ 1048576)
    (hA : length A ≡ 1048576) (hB : length B ≡ 1048576) where
  as_reference :
      (program : List S → List S → List S → Option (List S))
      → ((a b : ℕ → S) (C A B : List S)
          → length C ≡ 1048576
          → Holds 1048576 a A
          → Holds 1048576 b B
          → Ensures (Holds 1048576 (product R a b)) (program C A B))
      → program C A B ≡ Reference.mm1024 R C A B
  as_reference program lem =
      let whole_a = contents-Holds R 1048576 A hA in
      let whole_b = contents-Holds R 1048576 B hB in
      same_result (lem (contents R A) (contents R B) C A B hC whole_a whole_b)
        (Reference.mm1024-lem R (contents R A) (contents R B) C A B hC whole_a whole_b)

  -- For matrices of 1024 by 1024 elements, the programs of matmul_out_static.c,
  -- matmul_out_dynamic.c, matmul_out_stack.c and matmul_out_goal.c return exactly what the plain
  -- product returns, whatever the memory that they allocate holds.
  pub out-mm1024 :
      (OutStatic.mm1024 R u C A B ≡ Reference.mm1024 R C A B)
      × (OutDynamic.mm1024 R u C A B ≡ Reference.mm1024 R C A B)
      × (OutStack.mm1024 R u C A B ≡ Reference.mm1024 R C A B)
      × (OutGoal.mm1024 R u C A B ≡ Reference.mm1024 R C A B)
  out-mm1024 = (
    as_reference (OutStatic.mm1024 R u) (OutStatic.mm1024-lem R u),
    as_reference (OutDynamic.mm1024 R u) (OutDynamic.mm1024-lem R u),
    as_reference (OutStack.mm1024 R u) (OutStack.mm1024-lem R u),
    as_reference (OutGoal.mm1024 R u) (OutGoal.mm1024-lem R u),
  )

  -- For matrices of 1024 by 1024 elements, the programs of matmul_rise.c, matmul_rise_autosimd.c,
  -- matmul_rise_notmp.c and matmul_rise_notmp_autosimd.c return exactly what the plain product
  -- returns, whatever the memory that they allocate holds.
  pub rise-mm1024 :
      (Rise.mm1024 R u C A B ≡ Reference.mm1024 R C A B)
      × (RiseAutosimd.mm1024 R u C A B ≡ Reference.mm1024 R C A B)
      × (RiseNotmp.mm1024 R u C A B ≡ Reference.mm1024 R C A B)
      × (RiseNotmpAutosimd.mm1024 R u C A B ≡ Reference.mm1024 R C A B)
  rise-mm1024 = (
    as_reference (Rise.mm1024 R u) (Rise.mm1024-lem R u),
    as_reference (RiseAutosimd.mm1024 R u) (RiseAutosimd.mm1024-lem R u),
    as_reference (RiseNotmp.mm1024 R u) (RiseNotmp.mm1024-lem R u),
    as_reference (RiseNotmpAutosimd.mm1024 R u) (RiseNotmpAutosimd.mm1024-lem R u),
  )

  -- For matrices of 1024 by 1024 elements, the programs of matmul_opt_spec_cse_bits_ssum_tmp.c and
  -- matmul_opt_spec_cse_autosimd_ssum_tmp.c return exactly what the plain product returns,
  -- whatever the memory that they allocate holds.
  pub cse-mm1024 :
      (CseBits.mm1024 R u C A B ≡ Reference.mm1024 R C A B)
      × (CseAutosimd.mm1024 R u C A B ≡ Reference.mm1024 R C A B)
  cse-mm1024 = (
    as_reference (CseBits.mm1024 R u) (CseBits.mm1024-lem R u),
    as_reference (CseAutosimd.mm1024 R u) (CseAutosimd.mm1024-lem R u),
  )

  -- For matrices of 1024 by 1024 elements, the programs of matmul_opt_inner_transpose.c and
  -- matmul_opt_inner_transpose2.c return exactly what the plain product returns, whatever the
  -- memory that they allocate holds.
  pub inner_transpose-mm1024 :
      (InnerTranspose.mm1024 R u C A B ≡ Reference.mm1024 R C A B)
      × (InnerTranspose2.mm1024 R u C A B ≡ Reference.mm1024 R C A B)
  inner_transpose-mm1024 = (
    as_reference (InnerTranspose.mm1024 R u) (InnerTranspose.mm1024-lem R u),
    as_reference (InnerTranspose2.mm1024 R u) (InnerTranspose2.mm1024-lem R u),
  )

  -- For matrices of 1024 by 1024 elements, the programs that the transformations of matmul.cpp and
  -- matmul_check.cpp end with, in matmul_exp.cpp and matmul_check_exp.cpp, return exactly what the
  -- plain product returns, whatever the memory that they allocate holds.
  pub exp-mm1024 :
      (Exp.mm1024 R u C A B ≡ Reference.mm1024 R C A B)
      × (CheckExp.mm1024 R u C A B ≡ Reference.mm1024 R C A B)
  exp-mm1024 = (
    as_reference (Exp.mm1024 R u) (Exp.mm1024-lem R u),
    as_reference (CheckExp.mm1024 R u) (CheckExp.mm1024-lem R u),
  )
