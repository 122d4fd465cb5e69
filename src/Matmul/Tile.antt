-- ===== src/Matmul/Tile.antt =====
-- The loops that compute a block of the product, of 32 rows and 32 columns.
use optitrust.Prelude.{ℕ, zero, suc, ◌+◌, ◌*◌, ◌/◌, ◌%◌, ◌<◌, ◌≡◌, refl, List, arith, length}
use optitrust.Loops.{for_loop}
use optitrust.Loops.Ensures.{Ensures}
use optitrust.Reals.{Reals, zero_real}
use optitrust.Matmul.{fill, clear}
use optitrust.Matmul.Arrays.{
  Holds, contents, contents-Holds, fill-At, nest-At, start-At, end-At, in_order,
}

module _ {S : Type 0} (R : Reals S) (a b : ℕ → S) where
  -- a[1024 * r] * b[c] + … , of the first `n` products, added from the left to zero
  unfoldable pub dot : ℕ → ℕ → ℕ → S
  dot zero r c = zero_real R
  dot (suc n) r c = R.add (dot n r c) (R.mul (a (1024 * r + n)) (b (1024 * n + c)))

  -- sum[32 * i + j]
  abbrev pub tile : ℕ → ℕ → ℕ → ℕ → S
  tile n bi bj q = dot n (32 * bi + q / 32) (32 * bj + q % 32)

  -- C[1024 * i + j]
  abbrev pub product : ℕ → S
  product q = dot 1024 (q / 1024) (q % 1024)

  pub dot_zero : (r c : ℕ) → dot 0 r c ≡ zero_real R
  unfolding dot
  dot_zero r c = refl

  pub dot-next :
      (n n' r c : ℕ)
      → n' ≡ n + 1
      → R.add (dot n r c) (R.mul (a (1024 * r + n)) (b (1024 * n + c))) ≡ dot n' r c
  unfolding dot
  dot-next n n' r c next = (let e : n' ≡ suc n = omega (arith, next) in rw e refl)

  -- sum[32 * i + j] = 0
  pub zero-tile :
      (bi bj : ℕ) (to : ℕ → ℕ → ℕ) (sum : List S)
      → ((i j : ℕ) → to i j ≡ 32 * i + j)
      → length sum ≡ 1024
      → Ensures
          (Holds 1024 (tile 0 bi bj))
          (for_loop 32 0 (λ i d. fill 32 d (to i) (zero_real R)) sum)
  unfolding dot
  zero-tile bi bj to sum to≡ size =
      let w = in_order 1024 (tile 0 bi bj) (contents R sum) in
      end-At w 1024 (λ q lt. lt)
        (nest-At w (λ i. 32 * i) _ _ refl refl
          (λ i _ hi.
            fill-At w (zero_real R) 32 (32 * i) _ _
              (λ j lt. (omega (arith, to≡ i j), to≡ i j, refl)) (omega arith))
          (start-At w (contents-Holds R 1024 sum size)))

  pub clear-tile :
      (bi bj : ℕ) (sum : List S)
      → length sum ≡ 1024
      → Ensures (Holds 1024 (tile 0 bi bj)) (clear R 1024 sum)
  unfolding dot
  clear-tile bi bj sum size =
      let w = in_order 1024 (tile 0 bi bj) (contents R sum) in
      end-At w 1024 (λ q lt. lt)
        (fill-At w (zero_real R) 1024 0 _ _ (λ j lt. (lt, omega arith, refl)) refl
          (start-At w (contents-Holds R 1024 sum size)))

  pub tile-at :
      (n bi bj i j : ℕ) → j < 32 → tile n bi bj (32 * i + j) ≡ dot n (32 * bi + i) (32 * bj + j)
  tile-at n bi bj i j lt =
      let e : (32 * i + j) / 32 ≡ i = omega arith in
      let f : (32 * i + j) % 32 ≡ j = omega arith in rw (e, f) refl
