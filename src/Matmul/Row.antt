-- ===== src/Matmul/Row.antt =====
-- The loops that add four more products to a row of a block.
use optitrust.Prelude.{
  ℕ, ◌+◌, ◌-◌, ◌*◌, ◌/◌, ◌%◌, ◌<◌, ◌≤◌, ◌≡◌, refl, sym, ◌∙◌, ap, Option, some, List, arith, length,
  get_elem?, leb, ltb, ◌&&◌, if◌then◌else◌, Bool-cases, inl, inr, false, true,
}
use optitrust.Prelude.Options.{◌>>=◌}
use optitrust.Loops.Ensures.{Ensures, bind-Ensures, mono-Ensures}
use optitrust.Reals.{Reals}
use optitrust.Matmul.{copy, add_multiples}
use optitrust.Matmul.Arrays.{
  Plan, At, stage, Holds, mono-Holds, contents, contents-Holds, copy-At, start-At, end-At, in_order,
  add_multiples-Holds,
}
use optitrust.Matmul.Tile.{dot, dot-next, tile, tile-at}

module _ {S : Type 0} (R : Reals S) (a b : ℕ → S) where
  module _ (A : List S) (hA : Holds 1048576 a A) where
    -- `old`, with `g 0`, …, `g 31` from `low` on
    abbrev pub window : ℕ → (ℕ → S) → (ℕ → S) → ℕ → S
    window low g old q = if leb low q && ltb q (low + 32) then g (q - low) else old q

    -- One more product for the 32 columns `c`, …, `c + 31` of the row `r`.
    pub step-window :
        (m low n n' r c : ℕ) (old : ℕ → S) {d : List S} (to : ℕ → ℕ) (p : ℕ) (pB : List S)
        (from : ℕ → ℕ)
        → low + 32 ≤ m
        → r < 1024
        → n < 1024
        → n' ≡ n + 1
        → p ≡ 1024 * r + n
        → ((j : ℕ)
            → j < 32
            → (to j ≡ low + j) × (get_elem? pB (from j) ≡ some (b (1024 * n + (c + j)))))
        → Holds m (window low (λ j. dot R a b n r (c + j)) old) d
        → Ensures
            (Holds m (window low (λ j. dot R a b n' r (c + j)) old))
            (add_multiples R 32 d to A p pB from)
    step-window m low n n' r c old to p pB from room hr hn next at each h =
        mono-Ensures
          (add_multiples-Holds R m 32 low (window low (λ j. dot R a b n r (c + j)) old) to A p pB
            from (a p) (λ j. b (1024 * n + (c + j))) room each (hA.elem p (omega (arith, at))) h)
          λ t k. mono-Holds k λ q lt. elim (Bool-cases (leb low q && ltb q (low + 32))) [
            | inl e ↦ rw (e, at) (dot-next R a b n n' r (c + (q - low)) next)
            | inr e ↦ rw e refl
          ]

    -- Four more products for the row `i`.
    module _ (bi bj bk i : ℕ) (hi : i < 32) (hbi : bi < 32) (hbk : bk < 256) (p0 p1 p2 p3 : ℕ)
        (p0≡ : p0 ≡ 1024 * (32 * bi + i) + (4 * bk + 0))
        (p1≡ : p1 ≡ 1024 * (32 * bi + i) + (4 * bk + 1))
        (p2≡ : p2 ≡ 1024 * (32 * bi + i) + (4 * bk + 2))
        (p3≡ : p3 ≡ 1024 * (32 * bi + i) + (4 * bk + 3)) (pB : List S) (q0 q1 q2 q3 : ℕ → ℕ)
        (q0≡ : (j : ℕ)
          → j < 32
          → get_elem? pB (q0 j) ≡ some (b (1024 * (4 * bk + 0) + (32 * bj + j))))
        (q1≡ : (j : ℕ)
          → j < 32
          → get_elem? pB (q1 j) ≡ some (b (1024 * (4 * bk + 1) + (32 * bj + j))))
        (q2≡ : (j : ℕ)
          → j < 32
          → get_elem? pB (q2 j) ≡ some (b (1024 * (4 * bk + 2) + (32 * bj + j))))
        (q3≡ : (j : ℕ)
          → j < 32
          → get_elem? pB (q3 j) ≡ some (b (1024 * (4 * bk + 3) + (32 * bj + j)))) where
      -- The contents of `sum` while the rows of the block are updated.
      abbrev rows : Plan S
      rows = in_order 1024 (tile R a b (4 * bk + 4) bi bj) (tile R a b (4 * bk) bi bj)

      abbrev row : ℕ → ℕ → S
      row n j = dot R a b n (32 * bi + i) (32 * bj + j)

      module _ (m low : ℕ) (old : ℕ → S) (room : low + 32 ≤ m) where
        add_three :
            (d : List S) (to0 to1 to2 : ℕ → ℕ)
            → ((j : ℕ) → to0 j ≡ low + j)
            → ((j : ℕ) → to1 j ≡ low + j)
            → ((j : ℕ) → to2 j ≡ low + j)
            → Holds m (window low (row (4 * bk)) old) d
            → {k : List S → Option (List S)} {Q : List S → Type 0}
            → ((t : List S) → Holds m (window low (row (4 * bk + 3)) old) t → Ensures Q (k t))
            → Ensures Q (do
              s0 ← add_multiples R 32 d to0 A p0 pB q0
              s1 ← add_multiples R 32 s0 to1 A p1 pB q1
              s2 ← add_multiples R 32 s1 to2 A p2 pB q2
              k s2)
        add_three d to0 to1 to2 e0 e1 e2 h k =
            bind-Ensures
              (step-window m low (4 * bk + 0) (4 * bk + 1) (32 * bi + i) (32 * bj) old to0 p0 pB q0
                room (omega arith) (omega arith) (omega arith) p0≡ (λ j lt. (e0 j, q0≡ j lt))
                (let z : 4 * bk + 0 ≡ 4 * bk = omega arith in rw z h))
              λ s0 h0.
                bind-Ensures
                  (step-window m low (4 * bk + 1) (4 * bk + 2) (32 * bi + i) (32 * bj) old to1 p1 pB
                    q1 room (omega arith) (omega arith) (omega arith) p1≡ (λ j lt. (e1 j, q1≡ j lt))
                    h0)
                  λ s1 h1.
                    bind-Ensures
                      (step-window m low (4 * bk + 2) (4 * bk + 3) (32 * bi + i) (32 * bj) old to2
                        p2 pB q2 room (omega arith) (omega arith) (omega arith) p2≡
                        (λ j lt. (e2 j, q2≡ j lt)) h1)
                      k

        add_last :
            (d : List S) (to3 : ℕ → ℕ)
            → ((j : ℕ) → to3 j ≡ low + j)
            → Holds m (window low (row (4 * bk + 3)) old) d
            → Ensures
                (Holds m (window low (row (4 * bk + 4)) old))
                (add_multiples R 32 d to3 A p3 pB q3)
        add_last d to3 e3 h =
            step-window m low (4 * bk + 3) (4 * bk + 4) (32 * bi + i) (32 * bj) old to3 p3 pB q3
              room (omega arith) (omega arith) (omega arith) p3≡ (λ j lt. (e3 j, q3≡ j lt)) h

      -- The row of `sum` before and after.
      before : (j : ℕ) → j < 32 → stage rows (32 * i) (32 * i + j) ≡ row (4 * bk) j
      before j lt =
          let z : ltb (32 * i + j) (32 * i) ≡ false = ground arith in
          rw z (tile-at R a b (4 * bk) bi bj i j lt)

      inside : (n q : ℕ) → 32 * i ≤ q → q < 32 * i + 32 → row n (q - 32 * i) ≡ tile R a b n bi bj q
      inside n q low high =
          let e : q - 32 * i ≡ q % 32 = omega arith in
          let f : q / 32 ≡ i = omega arith in rw (e, f) refl

      -- A row of `sum` is updated where it is.
      pub row-in-place :
          (d : List S) (t0 t1 t2 t3 : ℕ → ℕ)
          → ((j : ℕ) → t0 j ≡ 32 * i + j)
          → ((j : ℕ) → t1 j ≡ 32 * i + j)
          → ((j : ℕ) → t2 j ≡ 32 * i + j)
          → ((j : ℕ) → t3 j ≡ 32 * i + j)
          → At rows (32 * i) d
          → Ensures (At rows (32 * (i + 1))) (do
            s ← add_multiples R 32 d t0 A p0 pB q0
            s ← add_multiples R 32 s t1 A p1 pB q1
            s ← add_multiples R 32 s t2 A p2 pB q2
            add_multiples R 32 s t3 A p3 pB q3)
      row-in-place d t0 t1 t2 t3 t0≡ t1≡ t2≡ t3≡ h =
          add_three 1024 (32 * i) (stage rows (32 * i)) (omega arith) d t0 t1 t2 t0≡ t1≡ t2≡
            (mono-Holds h λ q lt. elim (Bool-cases (leb (32 * i) q && ltb q (32 * i + 32))) [
              | inl e ↦
                  let low : 32 * i ≤ q = ground arith in
                  let high : q < 32 * i + 32 = ground arith in
                  let z : ltb q (32 * i) ≡ false = ground arith in
                  rw (e, z) (sym (inside (4 * bk) q low high))
              | inr e ↦ rw e refl
            ])
            λ s hs.
              mono-Ensures (add_last 1024 (32 * i) (stage rows (32 * i)) (omega arith) s t3 t3≡ hs)
                λ t ht. mono-Holds ht λ q lt.
                  elim (Bool-cases (leb (32 * i) q && ltb q (32 * i + 32))) [
                    | inl e ↦
                        let low : 32 * i ≤ q = ground arith in
                        let high : q < 32 * i + 32 = ground arith in
                        let z : ltb q (32 * (i + 1)) ≡ true = ground arith in
                        rw (e, z) (inside (4 * bk + 4) q low high)
                    | inr e ↦
                        let z : ltb q (32 * i) ≡ ltb q (32 * (i + 1)) = ground arith in
                        rw (e, z) refl
                  ]

      -- A row of `sum` is copied, updated and copied back.
      pub copied-row :
          (u d : List S) (t0 s0 t1 t2 t3 t4 s5 t5 : ℕ → ℕ)
          → length u ≡ 32
          → ((j : ℕ) → t0 j ≡ j)
          → ((j : ℕ) → s0 j ≡ 32 * i + j)
          → ((j : ℕ) → t1 j ≡ j)
          → ((j : ℕ) → t2 j ≡ j)
          → ((j : ℕ) → t3 j ≡ j)
          → ((j : ℕ) → t4 j ≡ j)
          → ((j : ℕ) → s5 j ≡ 32 * i + j)
          → ((j : ℕ) → t5 j ≡ j)
          → At rows (32 * i) d
          → Ensures (At rows (32 * (i + 1))) (do
            s ← copy 32 u t0 d s0
            s ← add_multiples R 32 s t1 A p0 pB q0
            s ← add_multiples R 32 s t2 A p1 pB q1
            s ← add_multiples R 32 s t3 A p2 pB q2
            s ← add_multiples R 32 s t4 A p3 pB q3
            copy 32 d s5 s t5)
      copied-row u d t0 s0 t1 t2 t3 t4 s5 t5 size t0≡ s0≡ t1≡ t2≡ t3≡ t4≡ s5≡ t5≡ h =
          let w = in_order 32 (row (4 * bk)) (contents R u) in
          bind-Ensures
            (end-At w 32 (λ q lt. lt)
              (copy-At w d 32 0 _ t0 s0
                (λ j lt. (
                  omega (arith, t0≡ j),
                  t0≡ j ∙ omega arith,
                  rw (s0≡ j, t0≡ j) (h.elem (32 * i + j) (omega arith) ∙ ap some (before j lt)),
                ))
                refl (start-At w (contents-Holds R 32 u size))))
            λ s hs.
              add_three 32 0 (contents R u) (omega arith) s t1 t2 t3 (λ j. t1≡ j ∙ omega arith)
                (λ j. t2≡ j ∙ omega arith) (λ j. t3≡ j ∙ omega arith)
                (mono-Holds hs λ q lt. (let z : q - 0 ≡ q = omega arith in ground arith))
                λ s2 h2.
                  bind-Ensures
                    (add_last 32 0 (contents R u) (omega arith) s2 t4 (λ j. t4≡ j ∙ omega arith) h2)
                    λ t ht.
                      copy-At rows t 32 (32 * i) _ s5 t5
                        (λ j lt. (
                          omega (arith, s5≡ j),
                          s5≡ j,
                          rw (t5≡ j, s5≡ j)
                              (ht.elem j lt
                                ∙ ap some (
                                    (let z : j - 0 ≡ j = omega arith in ground arith)
                                    ∙ sym (tile-at R a b (4 * bk + 4) bi bj i j lt))),
                        ))
                        (omega arith) h
