-- ===== src/RowSum/Transformed/Channels.antt =====
-- The rows that are filtered with a sliding window, for one channel or three.
use optitrust.Prelude.{
  ℕ, ◌+◌, ◌-◌, ◌*◌, ◌<◌, ◌≡◌, refl, arith, some, List, length, get_elem?, AllBelow,
}
use optitrust.Loops.Ensures.{Ensures, yields, bind-Ensures}
use optitrust.Loops.Stride.{for_by-Ensures}
use optitrust.Loops.Prefix.{Prefix, write-Prefix, move-Prefix}
use optitrust.RowSum.Transformed.{one_channel, three_channels}
use optitrust.RowSum.Window.{
  filtered, pixel, get_elem?-pixel, window_zero, window-lt, slide-lt, add16-filtered,
  slide16-filtered,
}

module _ (w n cn : ℕ) (S : List ℕ) (hS : length S ≡ (n + w - 1) * cn) (pos : 0 < n) where
  -- The read of an element of the window of `q`, of its first and of the element behind it.
  pub read : (k q x : ℕ) → k < w → q < n * cn → x ≡ q + k * cn → get_elem? S x ≡ some (pixel S x)
  read k q x hk hq at = get_elem?-pixel S x (rw (hS, at) (window-lt cn w n k q hk hq))

  pub read_first : (q : ℕ) → q + cn < n * cn → get_elem? S q ≡ some (pixel S q)
  read_first q hq =
      get_elem?-pixel S q (let h = slide-lt cn w n q pos hq in rw hS (omega (arith, h)))

  pub read_behind : (q x : ℕ) → q + cn < n * cn → x ≡ q + w * cn → get_elem? S x ≡ some (pixel S x)
  read_behind q x hq at = get_elem?-pixel S x (rw (hS, at) (slide-lt cn w n q pos hq))

module _ (w n : ℕ) (S D : List ℕ) (pos : 0 < n) (small : AllBelow 256 S) where
  pub one_channel-Prefix :
      length S ≡ (n + w - 1) * 1
      → length D ≡ n * 1
      → Ensures (Prefix (n * 1) (filtered S 1 w) (n * 1)) (one_channel w S D n)
  unfolding one_channel
  one_channel-Prefix hS hD =
      bind-Ensures
        (for_by-Ensures (λ k s. s ≡ filtered S 1 k 0) _ 0 1 w (omega arith)
          (λ k s hk e.
            rw (read w n 1 S hS pos k 0 (0 + 1 * k) hk (omega arith) (omega arith))
              (yields (add16-filtered S 1 k (k + 1) 0 (0 + 1 * k) s e refl (omega arith))))
          w (omega arith) 0 (rw (window_zero S 1 0) refl))
        λ s sum.
          bind-Ensures
            (write-Prefix (filtered S 1 w) D 0 1 s
              (record { size = hD; elem = λ q h. absurd (omega arith) }) (omega arith) refl sum)
            λ d first.
              bind-Ensures
                (for_by-Ensures
                  (λ t (r : ℕ × List ℕ).
                    (r.0 ≡ filtered S 1 w t) × Prefix (n * 1) (filtered S 1 w) (t + 1) r.1)
                  _ 0 1 (n - 1) (omega arith)
                  (λ t r ht (e, part).
                    (let i : 0 + 1 * t ≡ t = omega arith in
                      rw
                        (
                          i,
                          read_behind w n 1 S hS pos t (t + w) (omega arith) (omega arith),
                          read_first w n 1 S hS pos t (omega arith),
                        )
                        (let new =
                            slide16-filtered S 1 w t (t + 1) (t + w) (r.0) small e refl
                              (omega arith) in
                          bind-Ensures
                            (write-Prefix (filtered S 1 w) (r.1) (t + 1) (t + 1 + 1) _ part
                              (omega arith) refl new)
                            λ d' more. yields (new, more))))
                  (n - 1) (omega arith) (s, d) (sum, first))
                λ r (_, whole). yields (move-Prefix (n - 1 + 1) (n * 1) (omega arith) whole)

  pub three_channels-Prefix :
      length S ≡ (n + w - 1) * 3
      → length D ≡ n * 3
      → Ensures (Prefix (n * 3) (filtered S 3 w) (n * 3)) (three_channels w S D n)
  unfolding three_channels
  three_channels-Prefix hS hD =
      bind-Ensures
        (for_by-Ensures
          (λ k (r : ℕ × ℕ × ℕ).
            (r.0 ≡ filtered S 3 k 0) × (r.1 ≡ filtered S 3 k 1) × (r.2 ≡ filtered S 3 k 2))
          _ 0 3 w (omega arith)
          (λ k r hk (e0, e1, e2).
            (let i : 0 + 3 * k ≡ 3 * k = omega arith in
              rw
                (
                  i,
                  read w n 3 S hS pos k 0 (3 * k) hk (omega arith) (omega arith),
                  read w n 3 S hS pos k 1 (3 * k + 1) hk (omega arith) (omega arith),
                  read w n 3 S hS pos k 2 (3 * k + 2) hk (omega arith) (omega arith),
                )
                (yields (
                  add16-filtered S 3 k (k + 1) 0 (3 * k) (r.0) e0 refl (omega arith),
                  add16-filtered S 3 k (k + 1) 1 (3 * k + 1) (r.1) e1 refl (omega arith),
                  add16-filtered S 3 k (k + 1) 2 (3 * k + 2) (r.2) e2 refl (omega arith),
                ))))
          (3 * w) (omega arith) _
          (
            (let z = window_zero S 3 0 in rw z refl),
            (let z = window_zero S 3 1 in rw z refl),
            (let z = window_zero S 3 2 in rw z refl),
          ))
        λ r (sum0, sum1, sum2).
          bind-Ensures
            (write-Prefix (filtered S 3 w) D 0 1 (r.0)
              (record { size = hD; elem = λ q h. absurd (omega arith) }) (omega arith) refl sum0)
            λ d0 first0.
              bind-Ensures
                (write-Prefix (filtered S 3 w) d0 1 2 (r.1) first0 (omega arith) refl sum1)
                λ d1 first1.
                  bind-Ensures
                    (write-Prefix (filtered S 3 w) d1 2 3 (r.2) first1 (omega arith) refl sum2)
                    λ d2 first2.
                      bind-Ensures
                        (for_by-Ensures
                          (λ t (r : ℕ × ℕ × ℕ × List ℕ).
                            (r.0 ≡ filtered S 3 w (3 * t))
                            × (r.1 ≡ filtered S 3 w (3 * t + 1))
                            × (r.2 ≡ filtered S 3 w (3 * t + 2))
                            × Prefix (n * 3) (filtered S 3 w) (3 * t + 3) r.3)
                          _ 0 3 (n - 1) (omega arith)
                          (λ t r ht (e0, e1, e2, part).
                            (let i : 0 + 3 * t ≡ 3 * t = omega arith in
                              rw
                                (
                                  i,
                                  read_behind w n 3 S hS pos (3 * t) (3 * w + 3 * t) (omega arith)
                                      (omega arith),
                                  read_first w n 3 S hS pos (3 * t) (omega arith),
                                  read_behind w n 3 S hS pos (3 * t + 1) (3 * w + 3 * t + 1)
                                      (omega arith) (omega arith),
                                  read_first w n 3 S hS pos (3 * t + 1) (omega arith),
                                  read_behind w n 3 S hS pos (3 * t + 2) (3 * w + 3 * t + 2)
                                      (omega arith) (omega arith),
                                  read_first w n 3 S hS pos (3 * t + 2) (omega arith),
                                )
                                (let new0 =
                                    slide16-filtered S 3 w (3 * t) (3 * t + 3) (3 * w + 3 * t) (r.0)
                                      small e0 (omega arith) (omega arith) in
                                  let new1 =
                                    slide16-filtered S 3 w (3 * t + 1) (3 * t + 4)
                                      (3 * w + 3 * t + 1) (r.1) small e1 (omega arith)
                                      (omega arith) in
                                  let new2 =
                                    slide16-filtered S 3 w (3 * t + 2) (3 * t + 5)
                                      (3 * w + 3 * t + 2) (r.2) small e2 (omega arith)
                                      (omega arith) in
                                  bind-Ensures
                                    (write-Prefix (filtered S 3 w) (r.3) (3 * t + 3) (3 * t + 4) _
                                      part (omega arith) (omega arith) new0)
                                    λ d0' more0.
                                      bind-Ensures
                                        (write-Prefix (filtered S 3 w) d0' (3 * t + 4) (3 * t + 5) _
                                          more0 (omega arith) (omega arith) new1)
                                        λ d1' more1.
                                          bind-Ensures
                                            (write-Prefix (filtered S 3 w) d1' (3 * t + 5)
                                              (3 * t + 6) _ more1 (omega arith) (omega arith) new2)
                                            λ d2' more2. yields (
                                              (let s : 3 * (t + 1) ≡ 3 * t + 3 = omega arith in
                                                  rw s new0),
                                              (let s : 3 * (t + 1) + 1 ≡ 3 * t + 4 = omega arith in
                                                  rw s new1),
                                              (let s : 3 * (t + 1) + 2 ≡ 3 * t + 5 = omega arith in
                                                  rw s new2),
                                              move-Prefix (3 * t + 6) (3 * (t + 1) + 3)
                                                  (omega arith) more2,
                                            ))))
                          (3 * n - 3) (omega arith) _ (sum0, sum1, sum2, first2))
                        λ r whole.
                          yields (move-Prefix (3 * (n - 1) + 3) (n * 3) (omega arith) (whole.3))
