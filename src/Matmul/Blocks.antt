-- ===== src/Matmul/Blocks.antt =====
-- The blocks of the product, and the product from its blocks.
use optitrust.Prelude.{
  ℕ, ◌+◌, ◌*◌, ◌/◌, ◌%◌, ◌<◌, ◌≡◌, refl, ◌∙◌, ap, Option, some, List, arith, length,
}
use optitrust.Prelude.Options.{◌>>=◌}
use optitrust.Loops.{for_loop}
use optitrust.Loops.Ensures.{Ensures, bind-Ensures, for_loop-Ensures}
use optitrust.Reals.{Reals}
use optitrust.Matmul.{copy}
use optitrust.Matmul.Arrays.{
  Plan, At, Holds, contents, contents-Holds, copy-At, nest-At, start-At, end-At, in_order,
}
use optitrust.Matmul.Tile.{tile, product, tile-at}

-- The digits of the number of an element of C, in the order in which blocks are written.
abbrev pub order : ℕ → ℕ
order q = 32768 * (q / 32768) + 1024 * (q / 32 % 32) + 32 * (q / 1024 % 32) + q % 32

pub order_inj : (q q' : ℕ) → q < 1048576 → q' < 1048576 → order q ≡ order q' → q ≡ q'
order_inj q q' h h' e = omega (arith, e)

module _ {S : Type 0} (R : Reals S) (a b : ℕ → S) where
  -- The contents of C while it is written, for the contents `old` before.
  abbrev pub blocks : (ℕ → S) → Plan S
  blocks old = record {
    size = 1048576;
    key = order;
    key_inj = order_inj;
    new = product R a b;
    old = old;
  }

  -- The rows of a block for the four products from `4 * bk` on.
  abbrev pub rows : ℕ → ℕ → ℕ → Plan S
  rows bi bj bk = in_order 1024 (tile R a b (4 * bk + 4) bi bj) (tile R a b (4 * bk) bi bj)

  pub rows-lem :
      (bi bj bk : ℕ) {body : ℕ → List S → Option (List S)} {d : List S}
      → ((i : ℕ) (t : List S)
          → i < 32
          → At (rows bi bj bk) (32 * i) t
          → Ensures (At (rows bi bj bk) (32 * (i + 1))) (body i t))
      → Holds 1024 (tile R a b (4 * bk) bi bj) d
      → Ensures (Holds 1024 (tile R a b (4 * bk + 4) bi bj)) (for_loop 32 0 body d)
  rows-lem bi bj bk keep h =
      end-At (rows bi bj bk) 1024 (λ q lt. lt)
        (nest-At (rows bi bj bk) (λ i. 32 * i) _ _ refl refl keep (start-At (rows bi bj bk) h))

  pub tile-lem :
      (bi bj : ℕ) {body : ℕ → ℕ → List S → Option (List S)} {d : List S}
      → ((bk i : ℕ) (t : List S)
          → bk < 256
          → i < 32
          → At (rows bi bj bk) (32 * i) t
          → Ensures (At (rows bi bj bk) (32 * (i + 1))) (body bk i t))
      → Holds 1024 (tile R a b 0 bi bj) d
      → Ensures
          (Holds 1024 (tile R a b 1024 bi bj))
          (for_loop 256 0 (λ bk. for_loop 32 0 (body bk)) d)
  tile-lem bi bj {d} keep h =
      for_loop-Ensures (λ bk t. Holds 1024 (tile R a b (4 * bk) bi bj) t)
        (λ bk t hk inv.
          (let z : 4 * (bk + 1) ≡ 4 * bk + 4 = omega arith in
            rw z (rows-lem bi bj bk (λ i u hi k. keep bk i u hk hi k) inv)))
        d h

  -- The rows of a block are written to C.
  pub store-tile :
      (old : ℕ → S) (bi bj : ℕ) (to from : ℕ → ℕ → ℕ) (sum : List S) {c : List S}
      → bi < 32
      → bj < 32
      → ((i j : ℕ) → to i j ≡ 1024 * (32 * bi + i) + 32 * bj + j)
      → ((i j : ℕ) → from i j ≡ 32 * i + j)
      → Holds 1024 (tile R a b 1024 bi bj) sum
      → At (blocks old) (32768 * bi + 1024 * bj) c
      → Ensures
          (At (blocks old) (32768 * bi + 1024 * (bj + 1)))
          (for_loop 32 0 (λ i d. copy 32 d (to i) sum (from i)) c)
  store-tile old bi bj to from sum hbi hbj to≡ from≡ hs h =
      nest-At (blocks old) (λ i. 32768 * bi + 1024 * bj + 32 * i) _ _ (omega arith) (omega arith)
        (λ i t hi k.
          copy-At (blocks old) sum 32 (32768 * bi + 1024 * bj + 32 * i) _ (to i) (from i)
            (λ j lt. (
              omega (arith, to≡ i j),
              omega (arith, to≡ i j),
              rw (from≡ i j) (
                  hs.elem (32 * i + j) (omega arith)
                  ∙ ap some (
                      tile-at R a b 1024 bi bj i j lt
                      ∙ (let e : to i j / 1024 ≡ 32 * bi + i = omega (arith, to≡ i j) in
                          let f : to i j % 1024 ≡ 32 * bj + j = omega (arith, to≡ i j) in
                          rw (e, f) refl))),
            ))
            (omega arith) k)
        h

  pub product-lem :
      (C : List S) {body : ℕ → List S → Option (List S)}
      → length C ≡ 1048576
      → ((bi : ℕ) (t : List S)
          → bi < 32
          → At (blocks (contents R C)) (32768 * bi) t
          → Ensures (At (blocks (contents R C)) (32768 * (bi + 1))) (body bi t))
      → Ensures (Holds 1048576 (product R a b)) (for_loop 32 0 body C)
  product-lem C size keep =
      let w = blocks (contents R C) in
      end-At w 1048576 (λ q lt. omega arith)
        (nest-At w (λ bi. 32768 * bi) _ _ refl refl keep
          (start-At w (contents-Holds R 1048576 C size)))

  -- All blocks: `init` clears the block that `body` then computes.
  pub blocks-lem :
      (C : List S) (init : ℕ → ℕ → Option (List S))
      (body : ℕ → ℕ → ℕ → ℕ → List S → Option (List S)) (to from : ℕ → ℕ → ℕ → ℕ → ℕ)
      → length C ≡ 1048576
      → ((bi bj : ℕ) → Ensures (Holds 1024 (tile R a b 0 bi bj)) (init bi bj))
      → ((bi bj bk i : ℕ) (t : List S)
          → bi < 32
          → bj < 32
          → bk < 256
          → i < 32
          → At (rows bi bj bk) (32 * i) t
          → Ensures (At (rows bi bj bk) (32 * (i + 1))) (body bi bj bk i t))
      → ((bi bj i j : ℕ) → to bi bj i j ≡ 1024 * (32 * bi + i) + 32 * bj + j)
      → ((bi bj i j : ℕ) → from bi bj i j ≡ 32 * i + j)
      → Ensures (Holds 1048576 (product R a b)) (
          for_loop 32 0
            (λ bi. for_loop 32 0 λ bj c. do
              sum ← init bi bj
              sum ← for_loop 256 0 (λ bk. for_loop 32 0 (body bi bj bk)) sum
              for_loop 32 0 (λ i d. copy 32 d (to bi bj i) sum (from bi bj i)) c)
            C)
  blocks-lem C init body to from size zeroed step to≡ from≡ = product-lem C size λ bi _ hi.
      nest-At (blocks (contents R C)) (λ bj. 32768 * bi + 1024 * bj) _ _ (omega arith) (omega arith)
        λ bj _ hj written. bind-Ensures (zeroed bi bj) λ _ zero.
          bind-Ensures (tile-lem bi bj (λ bk i t hk h. step bi bj bk i t hi hj hk h) zero)
            λ sum done.
              store-tile (contents R C) bi bj (to bi bj) (from bi bj) sum hi hj (to≡ bi bj)
                (from≡ bi bj) done written
