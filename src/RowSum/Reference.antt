-- ===== src/RowSum/Reference.antt =====
-- The row sums of box_filter_rowsum.cpp are the sums of the windows, modulo 2 ^ 16.
use optitrust.Prelude.{
  ℕ, ◌+◌, ◌-◌, ◌*◌, ◌<◌, ◌≡◌, refl, sym, arith, some, List, length, get_elem?, fields_lt,
}
use optitrust.Prelude.Options.{◌>>=◌}
use optitrust.Loops.{for_loop}
use optitrust.Loops.Ensures.{
  Ensures, yields, bind-Ensures, mono-Ensures, for_loop-Ensures, for_loop_from,
}
use optitrust.Loops.Prefix.{Prefix, write-Prefix}
use optitrust.Matrix.{mindex2}
use optitrust.RowSum.{add16, row_sum}
use optitrust.RowSum.Window.{filtered, get_elem?-pixel, add16-filtered, window_zero, window-lt}

module _ (w n cn : ℕ) (S D : List ℕ) (hS : length S ≡ (n + w - 1) * cn) where
  sum-lem :
      (i c : ℕ)
      → i < n
      → c < cn
      → Ensures
          (λ s. s ≡ filtered S cn w (i * cn + c))
          (for_loop w i
            (λ k s. do x ← get_elem? S (mindex2 (n + w - 1) cn k c); some (add16 s x))
            0)
  unfolding mindex2
  sum-lem i c hi hc =
      mono-Ensures
        (for_loop_from (λ j s. (k : ℕ) × (j ≡ i + k) × (s ≡ filtered S cn k (i * cn + c))) _ w i
          (λ j s hj (k, at, e).
            (let q : i * cn + c < n * cn = fields_lt i c cn hc n hi in
              let lt : i * cn + c + k * cn < (n + w - 1) * cn =
                window-lt cn w n k (i * cn + c) (omega (arith, at)) q in
              let x : j * cn + c ≡ i * cn + c + k * cn = rw at (omega arith) in
              rw (x, get_elem?-pixel S (i * cn + c + k * cn) (rw hS lt))
                (yields (
                  k + 1,
                  omega (arith, at),
                  add16-filtered S cn k (k + 1) (i * cn + c) _ s e refl refl,
                ))))
          0 (0, omega arith, rw (window_zero S cn (i * cn + c)) refl))
        λ s (k, at, e). (let same : k ≡ w = omega (arith, at) in rw (sym same) e)

  pub row_sum-Prefix :
      length D ≡ n * cn → Ensures (Prefix (n * cn) (filtered S cn w) (n * cn)) (row_sum w S D n cn)
  unfolding row_sum mindex2
  row_sum-Prefix hD =
      for_loop-Ensures (λ i d. Prefix (n * cn) (filtered S cn w) (i * cn) d)
        (λ i d hi inv.
          (let e : (i + 1) * cn ≡ i * cn + cn = omega arith in
            rw e (
              for_loop-Ensures (λ c t. Prefix (n * cn) (filtered S cn w) (i * cn + c) t)
                (λ c t hc part. bind-Ensures (sum-lem i c hi hc) λ s sum.
                  write-Prefix (filtered S cn w) t (i * cn + c) _ s part (fields_lt i c cn hc n hi)
                    (omega arith) sum)
                d (let z : i * cn + 0 ≡ i * cn = omega arith in rw z inv))))
        D (record { size = hD; elem = λ q h. absurd (omega arith) })
