-- ===== src/RowSum/Transformed.antt =====
-- box_filter_rowsum_exp.cpp: the row sums with a case for the usual widths and channels.
pub mod Taps
pub mod Channels
pub mod FourChannels
pub mod Channel
use optitrust.Prelude.{
  ℕ, ◌+◌, ◌-◌, ◌*◌, ◌%◌, ◌^◌, Option, some, List, get_elem?, ◌==◌, if◌then◌else◌,
}
use optitrust.Prelude.Options.{◌>>=◌}
use optitrust.Loops.{for_loop, for_by, write}
use optitrust.RowSum.{add16, slide16}

-- w == 3
unfoldable pub three_taps : List ℕ → List ℕ → ℕ → ℕ → Option (List ℕ)
three_taps S D n cn =
    for_loop (cn * n) 0
      (λ ic d. do
        x ← get_elem? S ic
        y ← get_elem? S (cn + ic)
        z ← get_elem? S (2 * cn + ic)
        write d ic ((x + y + z) % 2 ^ 16))
      D

-- w == 5
unfoldable pub five_taps : List ℕ → List ℕ → ℕ → ℕ → Option (List ℕ)
five_taps S D n cn =
    for_loop (cn * n) 0
      (λ ic d. do
        x ← get_elem? S ic
        y ← get_elem? S (cn + ic)
        z ← get_elem? S (2 * cn + ic)
        u ← get_elem? S (3 * cn + ic)
        v ← get_elem? S (4 * cn + ic)
        write d ic ((x + y + z + u + v) % 2 ^ 16))
      D

-- cn == 1
unfoldable pub one_channel : ℕ → List ℕ → List ℕ → ℕ → Option (List ℕ)
one_channel w S D n = do
  s ← for_by 0 w 1 (λ i s. do x ← get_elem? S i; some (add16 s x)) 0
  d ← write D 0 s
  r ←
      for_by {A = ℕ × List ℕ} 0 (n - 1) 1
        (λ i r. do
          x ← get_elem? S (i + w)
          y ← get_elem? S i
          d ← write r.1 (i + 1) (slide16 r.0 x y)
          some (slide16 r.0 x y, d))
        (s, d)
  some r.1

-- cn == 3
unfoldable pub three_channels : ℕ → List ℕ → List ℕ → ℕ → Option (List ℕ)
three_channels w S D n = do
  r ←
      for_by {A = ℕ × ℕ × ℕ} 0 (3 * w) 3
        (λ i r. do
          x ← get_elem? S i
          x2 ← get_elem? S (i + 1)
          x3 ← get_elem? S (i + 2)
          some (add16 r.0 x, add16 r.1 x2, add16 r.2 x3))
        (0, 0, 0)
  d ← write D 0 r.0
  d ← write d 1 r.1
  d ← write d 2 r.2
  r ←
      for_by {A = ℕ × ℕ × ℕ × List ℕ} 0 (3 * n - 3) 3
        (λ i r. do
          x ← get_elem? S (3 * w + i)
          y ← get_elem? S i
          x2 ← get_elem? S (3 * w + i + 1)
          y2 ← get_elem? S (i + 1)
          x3 ← get_elem? S (3 * w + i + 2)
          y3 ← get_elem? S (i + 2)
          d ← write r.3 (i + 3) (slide16 r.0 x y)
          d ← write d (i + 4) (slide16 r.1 x2 y2)
          d ← write d (i + 5) (slide16 r.2 x3 y3)
          some (slide16 r.0 x y, slide16 r.1 x2 y2, slide16 r.2 x3 y3, d))
        (r.0, r.1, r.2, d)
  some r.3

-- cn == 4
unfoldable pub four_channels : ℕ → List ℕ → List ℕ → ℕ → Option (List ℕ)
four_channels w S D n = do
  r ←
      for_by {A = ℕ × ℕ × ℕ × ℕ} 0 (4 * w) 4
        (λ i r. do
          x ← get_elem? S i
          x4 ← get_elem? S (i + 1)
          x5 ← get_elem? S (i + 2)
          x6 ← get_elem? S (i + 3)
          some (add16 r.0 x, add16 r.1 x4, add16 r.2 x5, add16 r.3 x6))
        (0, 0, 0, 0)
  d ← write D 0 r.0
  d ← write d 1 r.1
  d ← write d 2 r.2
  d ← write d 3 r.3
  r ←
      for_by {A = ℕ × ℕ × ℕ × ℕ × List ℕ} 0 (4 * n - 4) 4
        (λ i r. do
          x ← get_elem? S (4 * w + i)
          y ← get_elem? S i
          x4 ← get_elem? S (4 * w + i + 1)
          y4 ← get_elem? S (i + 1)
          x5 ← get_elem? S (4 * w + i + 2)
          y5 ← get_elem? S (i + 2)
          x6 ← get_elem? S (4 * w + i + 3)
          y6 ← get_elem? S (i + 3)
          d ← write r.4 (i + 4) (slide16 r.0 x y)
          d ← write d (i + 5) (slide16 r.1 x4 y4)
          d ← write d (i + 6) (slide16 r.2 x5 y5)
          d ← write d (i + 7) (slide16 r.3 x6 y6)
          some (slide16 r.0 x y, slide16 r.1 x4 y4, slide16 r.2 x5 y5, slide16 r.3 x6 y6, d))
        (r.0, r.1, r.2, r.3, d)
  some r.4

-- The other numbers of channels, one channel after the other.
unfoldable pub channels : ℕ → List ℕ → List ℕ → ℕ → ℕ → Option (List ℕ)
channels w S D n cn =
    for_loop cn 0
      (λ c d. do
        s ← for_by 0 (cn * w) cn (λ i s. do x ← get_elem? S (c + i); some (add16 s x)) 0
        d ← write d c s
        r ←
            for_by {A = ℕ × List ℕ} c (cn * n - cn + c) cn
              (λ i r. do
                x ← get_elem? S (w * cn + i)
                y ← get_elem? S i
                d ← write r.1 (cn + i) (slide16 r.0 x y)
                some (slide16 r.0 x y, d))
              (s, d)
        some r.1)
      D

unfoldable pub row_sum : ℕ → List ℕ → List ℕ → ℕ → ℕ → Option (List ℕ)
row_sum w S D n cn =
    if w == 3
    then three_taps S D n cn
    else if w == 5
    then five_taps S D n cn
    else if cn == 1
    then one_channel w S D n
    else if cn == 3
    then three_channels w S D n
    else if cn == 4
    then four_channels w S D n
    else channels w S D n cn
