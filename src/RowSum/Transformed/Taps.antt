-- ===== src/RowSum/Transformed/Taps.antt =====
-- The rows that are filtered with a width of three or five.
use optitrust.Prelude.{ℕ, ◌+◌, ◌-◌, ◌*◌, ◌<◌, ◌≡◌, refl, ◌∙◌, arith, List, length}
use optitrust.Loops.Ensures.{Ensures, for_loop-Ensures}
use optitrust.Loops.Prefix.{Prefix, write-Prefix}
use optitrust.RowSum.Transformed.{three_taps, five_taps}
use optitrust.RowSum.Window.{
  filtered, pixel, get_elem?-pixel, window, window_zero, window-next, window-lt,
}

module _ (n cn : ℕ) (S D : List ℕ) (hD : length D ≡ n * cn) where
  window_three : (q : ℕ) → pixel S q + pixel S (cn + q) + pixel S (2 * cn + q) ≡ window S cn 3 q
  window_three q =
      let z = window_zero S cn q in
      let e1 = window-next S cn 0 1 q q refl (omega arith) in
      let e2 = window-next S cn 1 2 q (cn + q) refl (omega arith) in
      let e3 = window-next S cn 2 3 q (2 * cn + q) refl (omega arith) in
      omega (arith, z, e1, e2, e3)

  window_five :
      (q : ℕ)
      → pixel S q
          + pixel S (cn + q)
          + pixel S (2 * cn + q)
          + pixel S (3 * cn + q)
          + pixel S (4 * cn + q)
        ≡ window S cn 5 q
  window_five q =
      let z = window_three q in
      let e4 = window-next S cn 3 4 q (3 * cn + q) refl (omega arith) in
      let e5 = window-next S cn 4 5 q (4 * cn + q) refl (omega arith) in omega (arith, z, e4, e5)

  pub three_taps-Prefix :
      length S ≡ (n + 3 - 1) * cn
      → Ensures (Prefix (n * cn) (filtered S cn 3) (n * cn)) (three_taps S D n cn)
  unfolding three_taps
  three_taps-Prefix hS =
      let e : n * cn ≡ cn * n = omega arith in
      rw e (
        for_loop-Ensures (λ ic d. Prefix (cn * n) (filtered S cn 3) ic d)
          (λ ic d h inv.
            (let q : ic < n * cn = omega arith in
              let l0 = window-lt cn 3 n 0 ic (omega arith) q in
              let l1 = window-lt cn 3 n 1 ic (omega arith) q in
              let l2 = window-lt cn 3 n 2 ic (omega arith) q in
              rw
                (
                  get_elem?-pixel S ic (omega arith),
                  get_elem?-pixel S (cn + ic) (omega arith),
                  get_elem?-pixel S (2 * cn + ic) (omega arith),
                )
                (write-Prefix (filtered S cn 3) d ic (ic + 1) _ inv h refl
                  (rw (window_three ic) refl))))
          D (record { size = hD ∙ e; elem = λ q h. absurd (omega arith) }))

  pub five_taps-Prefix :
      length S ≡ (n + 5 - 1) * cn
      → Ensures (Prefix (n * cn) (filtered S cn 5) (n * cn)) (five_taps S D n cn)
  unfolding five_taps
  five_taps-Prefix hS =
      let e : n * cn ≡ cn * n = omega arith in
      rw e (
        for_loop-Ensures (λ ic d. Prefix (cn * n) (filtered S cn 5) ic d)
          (λ ic d h inv.
            (let q : ic < n * cn = omega arith in
              let l0 = window-lt cn 5 n 0 ic (omega arith) q in
              let l1 = window-lt cn 5 n 1 ic (omega arith) q in
              let l2 = window-lt cn 5 n 2 ic (omega arith) q in
              let l3 = window-lt cn 5 n 3 ic (omega arith) q in
              let l4 = window-lt cn 5 n 4 ic (omega arith) q in
              rw
                (
                  get_elem?-pixel S ic (omega arith),
                  get_elem?-pixel S (cn + ic) (omega arith),
                  get_elem?-pixel S (2 * cn + ic) (omega arith),
                  get_elem?-pixel S (3 * cn + ic) (omega arith),
                  get_elem?-pixel S (4 * cn + ic) (omega arith),
                )
                (write-Prefix (filtered S cn 5) d ic (ic + 1) _ inv h refl
                  (rw (window_five ic) refl))))
          D (record { size = hD ∙ e; elem = λ q h. absurd (omega arith) }))
