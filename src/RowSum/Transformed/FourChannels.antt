-- ===== src/RowSum/Transformed/FourChannels.antt =====
-- The rows that are filtered with a sliding window, for four channels.
use optitrust.Prelude.{ℕ, ◌+◌, ◌-◌, ◌*◌, ◌<◌, ◌≡◌, refl, arith, List, length, AllBelow}
use optitrust.Loops.Ensures.{Ensures, yields, bind-Ensures}
use optitrust.Loops.Stride.{for_by-Ensures}
use optitrust.Loops.Prefix.{Prefix, write-Prefix, move-Prefix}
use optitrust.RowSum.Transformed.{four_channels}
use optitrust.RowSum.Window.{filtered, window_zero, add16-filtered, slide16-filtered}
use optitrust.RowSum.Transformed.Channels.{read, read_first, read_behind}

module _ (w n : ℕ) (S D : List ℕ) (pos : 0 < n) (small : AllBelow 256 S) where
  pub four_channels-Prefix :
      length S ≡ (n + w - 1) * 4
      → length D ≡ n * 4
      → Ensures (Prefix (n * 4) (filtered S 4 w) (n * 4)) (four_channels w S D n)
  unfolding four_channels
  four_channels-Prefix hS hD =
      bind-Ensures
        (for_by-Ensures
          (λ k (r : ℕ × ℕ × ℕ × ℕ).
            (r.0 ≡ filtered S 4 k 0)
            × (r.1 ≡ filtered S 4 k 1)
            × (r.2 ≡ filtered S 4 k 2)
            × (r.3 ≡ filtered S 4 k 3))
          _ 0 4 w (omega arith)
          (λ k r hk (e0, e1, e2, e3).
            (let i : 0 + 4 * k ≡ 4 * k = omega arith in
              rw
                (
                  i,
                  read w n 4 S hS pos k 0 (4 * k) hk (omega arith) (omega arith),
                  read w n 4 S hS pos k 1 (4 * k + 1) hk (omega arith) (omega arith),
                  read w n 4 S hS pos k 2 (4 * k + 2) hk (omega arith) (omega arith),
                  read w n 4 S hS pos k 3 (4 * k + 3) hk (omega arith) (omega arith),
                )
                (yields (
                  add16-filtered S 4 k (k + 1) 0 (4 * k) (r.0) e0 refl (omega arith),
                  add16-filtered S 4 k (k + 1) 1 (4 * k + 1) (r.1) e1 refl (omega arith),
                  add16-filtered S 4 k (k + 1) 2 (4 * k + 2) (r.2) e2 refl (omega arith),
                  add16-filtered S 4 k (k + 1) 3 (4 * k + 3) (r.3) e3 refl (omega arith),
                ))))
          (4 * w) (omega arith) _
          (
            (let z = window_zero S 4 0 in rw z refl),
            (let z = window_zero S 4 1 in rw z refl),
            (let z = window_zero S 4 2 in rw z refl),
            (let z = window_zero S 4 3 in rw z refl),
          ))
        λ r (sum0, sum1, sum2, sum3).
          bind-Ensures
            (write-Prefix (filtered S 4 w) D 0 1 (r.0)
              (record { size = hD; elem = λ q h. absurd (omega arith) }) (omega arith) refl sum0)
            λ d0 first0.
              bind-Ensures
                (write-Prefix (filtered S 4 w) d0 1 2 (r.1) first0 (omega arith) refl sum1)
                λ d1 first1.
                  bind-Ensures
                    (write-Prefix (filtered S 4 w) d1 2 3 (r.2) first1 (omega arith) refl sum2)
                    λ d2 first2.
                      bind-Ensures
                        (write-Prefix (filtered S 4 w) d2 3 4 (r.3) first2 (omega arith) refl sum3)
                        λ d3 first3.
                          bind-Ensures
                            (for_by-Ensures
                              (λ t (r : ℕ × ℕ × ℕ × ℕ × List ℕ).
                                (r.0 ≡ filtered S 4 w (4 * t))
                                × (r.1 ≡ filtered S 4 w (4 * t + 1))
                                × (r.2 ≡ filtered S 4 w (4 * t + 2))
                                × (r.3 ≡ filtered S 4 w (4 * t + 3))
                                × Prefix (n * 4) (filtered S 4 w) (4 * t + 4) r.4)
                              _ 0 4 (n - 1) (omega arith)
                              (λ t r ht (e0, e1, e2, e3, part).
                                (let i : 0 + 4 * t ≡ 4 * t = omega arith in
                                  rw
                                    (
                                      i,
                                      read_behind w n 4 S hS pos (4 * t) (4 * w + 4 * t)
                                          (omega arith) (omega arith),
                                      read_first w n 4 S hS pos (4 * t) (omega arith),
                                      read_behind w n 4 S hS pos (4 * t + 1) (4 * w + 4 * t + 1)
                                          (omega arith) (omega arith),
                                      read_first w n 4 S hS pos (4 * t + 1) (omega arith),
                                      read_behind w n 4 S hS pos (4 * t + 2) (4 * w + 4 * t + 2)
                                          (omega arith) (omega arith),
                                      read_first w n 4 S hS pos (4 * t + 2) (omega arith),
                                      read_behind w n 4 S hS pos (4 * t + 3) (4 * w + 4 * t + 3)
                                          (omega arith) (omega arith),
                                      read_first w n 4 S hS pos (4 * t + 3) (omega arith),
                                    )
                                    (let new0 =
                                        slide16-filtered S 4 w (4 * t) (4 * t + 4) (4 * w + 4 * t)
                                          (r.0) small e0 (omega arith) (omega arith) in
                                      let new1 =
                                        slide16-filtered S 4 w (4 * t + 1) (4 * t + 5)
                                          (4 * w + 4 * t + 1) (r.1) small e1 (omega arith)
                                          (omega arith) in
                                      let new2 =
                                        slide16-filtered S 4 w (4 * t + 2) (4 * t + 6)
                                          (4 * w + 4 * t + 2) (r.2) small e2 (omega arith)
                                          (omega arith) in
                                      let new3 =
                                        slide16-filtered S 4 w (4 * t + 3) (4 * t + 7)
                                          (4 * w + 4 * t + 3) (r.3) small e3 (omega arith)
                                          (omega arith) in
                                      bind-Ensures
                                        (write-Prefix (filtered S 4 w) (r.4) (4 * t + 4) (4 * t + 5)
                                          _ part (omega arith) (omega arith) new0)
                                        λ d0' more0.
                                          bind-Ensures
                                            (write-Prefix (filtered S 4 w) d0' (4 * t + 5)
                                              (4 * t + 6) _ more0 (omega arith) (omega arith) new1)
                                            λ d1' more1.
                                              bind-Ensures
                                                (write-Prefix (filtered S 4 w) d1' (4 * t + 6)
                                                  (4 * t + 7) _ more1 (omega arith) (omega arith)
                                                  new2)
                                                λ d2' more2.
                                                  bind-Ensures
                                                    (write-Prefix (filtered S 4 w) d2' (4 * t + 7)
                                                      (4 * t + 8) _ more2 (omega arith)
                                                      (omega arith) new3)
                                                    λ d3' more3. yields (
                                                      (let s : 4 * (t + 1) ≡ 4 * t + 4 =
                                                            omega arith in
                                                          rw s new0),
                                                      (let s : 4 * (t + 1) + 1 ≡ 4 * t + 5 =
                                                            omega arith in
                                                          rw s new1),
                                                      (let s : 4 * (t + 1) + 2 ≡ 4 * t + 6 =
                                                            omega arith in
                                                          rw s new2),
                                                      (let s : 4 * (t + 1) + 3 ≡ 4 * t + 7 =
                                                            omega arith in
                                                          rw s new3),
                                                      move-Prefix (4 * t + 8) (4 * (t + 1) + 4)
                                                          (omega arith) more3,
                                                    ))))
                              (4 * n - 4) (omega arith) _ (sum0, sum1, sum2, sum3, first3))
                            λ r whole.
                              yields (move-Prefix (4 * (n - 1) + 4) (n * 4) (omega arith) (whole.4))
