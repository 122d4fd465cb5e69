-- ===== src/RowSum/Transformed/Channel.antt =====
-- The rows of any number of channels, which are filtered one channel after the other.
use optitrust.Prelude.{
  ℕ, zero, suc, ◌+◌, ◌-◌, ◌*◌, ◌<◌, ◌≤◌, ◌≡◌, refl, ◌∙◌, ap, arith, List, length, AllBelow,
  Bool-cases, ltb, inl, inr, fields_lt,
}
use optitrust.Loops.Ensures.{Ensures, yields, bind-Ensures, mono-Ensures, for_loop-Ensures}
use optitrust.Loops.{write}
use optitrust.Loops.Stride.{for_by-Ensures}
use optitrust.Loops.Prefix.{Prefix, Has, write-Has}
use optitrust.RowSum.Transformed.{channels}
use optitrust.RowSum.Transformed.Channels.{read, read_first, read_behind}
use optitrust.RowSum.Window.{filtered, window_zero, add16-filtered, slide16-filtered}

-- Every position is one of a pixel and a channel.
digits : (n cn q : ℕ) → q < n * cn → (t c : ℕ) × (t < n) × (c < cn) × (q ≡ c + cn * t)
digits zero cn q h = absurd (omega (arith, h))
digits (suc n) cn q h = elim (Bool-cases (ltb q cn)) [
  | inl e ↦ (0, q, omega arith, ground arith, omega arith)
  | inr e ↦
      let ge : cn ≤ q = ground arith in
      let (t, c, ht, hc, at) = digits n cn (q - cn) (omega (arith, h, ge)) in
      (suc t, c, omega arith, hc, omega (arith, at, ge))
]

module _ (w n cn : ℕ) (S D : List ℕ) (pos : 0 < n) (small : AllBelow 256 S)
    (hS : length S ≡ (n + w - 1) * cn) where
  abbrev new : ℕ → ℕ
  new = filtered S cn w

  -- The channels before `c` are filtered.
  abbrev Filtered : ℕ → List ℕ → Type 0
  Filtered c d = (length d ≡ n * cn) × ((c' t : ℕ) → c' < c → t < n → Has new d (c' + cn * t))

  -- And of channel `c`, the pixels before `t`.
  abbrev Filtering : ℕ → ℕ → List ℕ → Type 0
  Filtering c t d =
      (length d ≡ n * cn)
      × ((c' t : ℕ) → c' < c → t < n → Has new d (c' + cn * t))
      × ((t' : ℕ) → t' < t → Has new d (c + cn * t'))

  room : (c t : ℕ) → c < cn → t + 1 < n → c + cn * t + cn < n * cn
  room c t hc ht = let h = fields_lt (t + 1) c cn hc n ht in omega (arith, h)

  write-Filtering :
      (c t t' : ℕ) (d : List ℕ) (q x : ℕ)
      → c < cn
      → t < n
      → q ≡ c + cn * t
      → t' ≡ t + 1
      → x ≡ new (c + cn * t)
      → Filtering c t d
      → Ensures (Filtering c t') (write d q x)
  write-Filtering c t t' d q x hc ht at next e (size, before, here) =
      let lt = fields_lt t c cn hc n ht in
      rw at (
        mono-Ensures (write-Has new d (c + cn * t) x size (omega (arith, lt)) e)
          λ d' (size', written, keep). (
            size',
            λ c' i hc' hi. keep (c' + cn * i) (before c' i hc' hi),
            λ i hi. elim (Bool-cases (ltb i t)) [
              | inl l ↦ keep (c + cn * i) (here i (ground arith))
              | inr r ↦ (let same : i ≡ t = ground arith in rw same written)
            ],
          ))

  last_pixel : cn * n ≡ cn * (n - 1) + cn
  last_pixel = (let s : n ≡ n - 1 + 1 = omega arith in ap (λ (m : ℕ). cn * m) s ∙ omega arith)

  pub channels-Prefix :
      length D ≡ n * cn → Ensures (Prefix (n * cn) new (n * cn)) (channels w S D n cn)
  unfolding channels
  channels-Prefix hD =
      mono-Ensures
        (for_loop-Ensures Filtered
          (λ c d hc (size, before).
            bind-Ensures
              (for_by-Ensures (λ k s. s ≡ filtered S cn k c) _ 0 cn w (omega arith)
                (λ k s hk e.
                  (let lt = fields_lt 0 c cn hc n pos in
                    rw
                      (read w n cn S hS pos k c (c + (0 + cn * k)) hk (omega (arith, lt))
                        (omega arith))
                      (yields (
                        add16-filtered S cn k (k + 1) c (c + (0 + cn * k)) s e refl
                          (omega arith)))))
                (cn * w) (omega arith) 0 (rw (window_zero S cn c) refl))
              λ s sum.
                bind-Ensures
                  (write-Filtering c 0 1 d c s hc pos (omega arith) refl
                    (let z : c + cn * 0 ≡ c = omega arith in rw z sum)
                    (size, before, λ i hi. absurd (omega arith)))
                  λ d' first.
                    bind-Ensures
                      (for_by-Ensures
                        (λ t (r : ℕ × List ℕ). (r.0 ≡ new (c + cn * t)) × Filtering c (t + 1) r.1) _
                        c cn (n - 1) (omega arith)
                        (λ t r ht (e, part).
                          (let lt = room c t hc (omega arith) in
                            rw
                              (
                                read_behind w n cn S hS pos (c + cn * t) (w * cn + (c + cn * t)) lt
                                    (omega arith),
                                read_first w n cn S hS pos (c + cn * t) lt,
                              )
                              (let next =
                                  slide16-filtered S cn w (c + cn * t) (c + cn * (t + 1))
                                    (w * cn + (c + cn * t)) (r.0) small e (omega arith)
                                    (omega arith) in
                                bind-Ensures
                                  (write-Filtering c (t + 1) (t + 1 + 1) (r.1) (cn + (c + cn * t)) _
                                    hc (omega arith) (omega arith) refl next part)
                                  λ d'' more. yields (next, more))))
                        (cn * n - cn + c) (omega (arith, last_pixel)) (s, d')
                        ((let z : c + cn * 0 ≡ c = omega arith in rw z sum), first))
                      λ r (_, (size', before', here)). yields (
                        size',
                        λ c' t hc' ht. elim (Bool-cases (ltb c' c)) [
                          | inl l ↦ before' c' t (ground arith) ht
                          | inr g ↦
                              (let same : c' ≡ c = ground arith in rw same (here t (omega arith)))
                        ],
                      ))
          D (hD, λ c t hc ht. absurd (omega arith)))
        λ d (size, all). record {
          size = size;
          elem = λ q h. (let (t, c, ht, hc, at) = digits n cn q h in rw at (all c t hc ht));
        }
