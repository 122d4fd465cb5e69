-- ===== src/RowSum/Equivalence.antt =====
-- The transformed row sums are those of the original.
use optitrust.Prelude.{
  ℕ, ◌+◌, ◌-◌, ◌*◌, ◌%◌, ◌^◌, ◌<◌, ◌≡◌, sym, ◌∙◌, ap, arith, Option, some, List, length, get_elem?,
  AllBelow, Bool-cases, ◌==◌, inl, inr, fields_lt,
}
use optitrust.Loops.Ensures.{Ensures, yields, result-Ensures}
use optitrust.Loops.Prefix.{Prefix}
use optitrust.Matmul.Arrays.{Holds, Holds-unique}
use optitrust.RowSum.{row_sum}
use optitrust.RowSum.Transformed
use optitrust.RowSum.Reference.{row_sum-Prefix}
use optitrust.RowSum.Transformed.Taps.{three_taps-Prefix, five_taps-Prefix}
use optitrust.RowSum.Transformed.Channels.{one_channel-Prefix, three_channels-Prefix}
use optitrust.RowSum.Transformed.FourChannels.{four_channels-Prefix}
use optitrust.RowSum.Transformed.Channel.{channels-Prefix}
use optitrust.RowSum.Window.{filtered, window}

module _ (w n cn : ℕ) (S D : List ℕ) (pos : 0 < n) (small : AllBelow 256 S)
    (hS : length S ≡ (n + w - 1) * cn) (hD : length D ≡ n * cn) where
  transformed-Prefix :
      Ensures (Prefix (n * cn) (filtered S cn w) (n * cn)) (Transformed.row_sum w S D n cn)
  unfolding Transformed.row_sum
  transformed-Prefix = elim (Bool-cases (w == 3)) [
    | inl e ↦
        (let at : w ≡ 3 = ground arith in
          rw e (rw at (three_taps-Prefix n cn S D hD (rw (sym at) hS))))
    | inr e3 ↦ elim (Bool-cases (w == 5)) [
      | inl e ↦
          (let at : w ≡ 5 = ground arith in
            rw (e3, e) (rw at (five_taps-Prefix n cn S D hD (rw (sym at) hS))))
      | inr e5 ↦ elim (Bool-cases (cn == 1)) [
        | inl e ↦
            (let at : cn ≡ 1 = ground arith in
              rw (e3, e5, e)
                (rw at (
                  one_channel-Prefix w n S D pos small (hS ∙ ap (λ (m : ℕ). (n + w - 1) * m) at)
                    (hD ∙ ap (λ (m : ℕ). n * m) at))))
        | inr c1 ↦ elim (Bool-cases (cn == 3)) [
          | inl e ↦
              (let at : cn ≡ 3 = ground arith in
                rw (e3, e5, c1, e)
                  (rw at
                    (three_channels-Prefix w n S D pos small (rw (sym at) hS) (rw (sym at) hD))))
          | inr c3 ↦ elim (Bool-cases (cn == 4)) [
            | inl e ↦
                (let at : cn ≡ 4 = ground arith in
                  rw (e3, e5, c1, c3, e)
                    (rw at
                      (four_channels-Prefix w n S D pos small (rw (sym at) hS) (rw (sym at) hD))))
            | inr c4 ↦ rw (e3, e5, c1, c3, c4) (channels-Prefix w n cn S D pos small hS hD)
          ]
        ]
      ]
    ]
  ]

  whole :
      {d : List ℕ}
      → Prefix (n * cn) (filtered S cn w) (n * cn) d
      → Holds (n * cn) (filtered S cn w) d
  whole h = record { size = h.size; elem = h.elem }

  equal :
      {c d : Option (List ℕ)}
      → Ensures (Prefix (n * cn) (filtered S cn w) (n * cn)) c
      → Ensures (Prefix (n * cn) (filtered S cn w) (n * cn)) d
      → c ≡ d
  equal (yields {x} h) (yields {x = y} k) = ap some (Holds-unique x y (whole h) (whole k))

  -- For a source of bytes with n + w - 1 pixels and a destination with n, at least one, of cn
  -- channels each: the transformed row sums return exactly what the original returns.
  pub transformed-row_sum : Transformed.row_sum w S D n cn ≡ row_sum w S D n cn
  transformed-row_sum = equal transformed-Prefix (row_sum-Prefix w n cn S D hS hD)

-- For a source of n + w - 1 pixels and a destination of n, of cn channels each: the row sums return a
-- destination of the same size. Channel c of its pixel i is the sum, modulo 2 ^ 16, of that channel of
-- the w pixels of the source from i on.
pub row_sum-window :
    (w n cn : ℕ) (S D : List ℕ)
    → length S ≡ (n + w - 1) * cn
    → length D ≡ n * cn
    → (D' : List ℕ) × (row_sum w S D n cn ≡ some D')
      × (length D' ≡ n * cn)
      × ((i c : ℕ)
          → i < n
          → c < cn
          → get_elem? D' (i * cn + c) ≡ some (window S cn w (i * cn + c) % 2 ^ 16))
row_sum-window w n cn S D hS hD =
    let (D', e, h) = result-Ensures (row_sum-Prefix w n cn S D hS hD) in
    (D', e, h.size, λ i c hi hc. h.elem (i * cn + c) (fields_lt i c cn hc n hi))
