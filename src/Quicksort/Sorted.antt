-- ===== src/Quicksort/Sorted.antt =====
-- The sort ends, and its result is in order and has the elements of the array.
use optitrust.Prelude.{
  ℕ, zero, suc, ◌+◌, ◌-◌, ◌<◌, ◌≤◌, ◌≡◌, ◌⊎◌, sym, ap, ◌∙◌, Bool, true, false, some, List, length,
  get_elem?, ◌==◌, leb, Bool-cases, inl, inr, arith, ltb,
}
use optitrust.Loops.Ensures.{Ensures, yields, bind-Ensures, mono-Ensures, result-Ensures}
use optitrust.Quicksort.{sort_core, sort}
use optitrust.Quicksort.Shuffle.{count, Shuffled, refl-Shuffled, trans-Shuffled, widen-Shuffled}
use optitrust.Quicksort.Selection.{IsOrder, SortedTo, insertion_sort-Sorted, same_value}
use optitrust.Quicksort.Partition.{All, Partitioned, partition-Partitioned}

module _ {A : Type 0} (lt : A → A → Bool) (order : IsOrder lt) where
  abbrev pub Sorted : ℕ → ℕ → List A → Type 0
  Sorted lo hi xs = SortedTo lt order hi lo hi xs

  -- A part that is shuffled keeps what holds of all its elements, and so does a part outside.
  shuffle-All :
      {P : A → Type 0} {lo hi : ℕ} (xs ys : List A)
      → Shuffled lo hi xs ys
      → All lt P lo hi xs
      → All lt P lo hi ys
  shuffle-All xs ys f all i l h x e =
      let (j, lj, hj, at) = f.inside i l h in all j lj hj x (sym at ∙ e)

  outside-All :
      {P : A → Type 0} {lo hi : ℕ} (lo' hi' : ℕ) (xs ys : List A)
      → Shuffled lo' hi' xs ys
      → (hi ≤ lo') ⊎ (hi' ≤ lo)
      → All lt P lo hi xs
      → All lt P lo hi ys
  outside-All lo' hi' xs ys f apart all i l h x e =
      all i l h x (
        sym (f.outside i (elim apart [ inl a ↦ inl (omega arith) | inr a ↦ inr (omega arith) ]))
        ∙ e)

  join-Sorted :
      (base k hi : ℕ) (xs : List A) (pivot : A)
      → get_elem? xs (base + k) ≡ some pivot
      → All lt (λ x. lt x pivot ≡ true) base (base + k) xs
      → All lt (λ x. lt x pivot ≡ false) (base + (k + 1)) hi xs
      → Sorted base (base + k) xs
      → Sorted (base + (k + 1)) hi xs
      → Sorted base hi xs
  join-Sorted base k hi xs pivot at less others left right i j li bi ij bj x y ex ey =
      elim (Bool-cases (ltb j (base + k))) [
        | inl t ↦ left i j li (omega (arith, below j t)) ij (below j t) x y ex ey
        | inr t ↦ elim (Bool-cases (ltb i (base + k))) [
          | inl u ↦
              let small : lt pivot x ≡ false =
                order.asymmetric x pivot (less i li (below i u) x ex) in
              elim (Bool-cases (j == base + k)) [
                | inl v ↦ (let yp : y ≡ pivot = is_pivot j y v ey in rw yp small)
                | inr v ↦ order.transitive x pivot y small (others j (ground arith) bj y ey)
              ]
          | inr u ↦ elim (Bool-cases (i == base + k)) [
            | inl v ↦
                let place : i ≡ base + k = ground arith in
                let xp : x ≡ pivot = is_pivot i x v ex in
                rw xp (others j (omega (arith, place)) bj y ey)
            | inr v ↦ right i j (ground arith) bi ij bj x y ex ey
          ]
        ]
      ]
    where
      below : (i : ℕ) → ltb i (base + k) ≡ true → i < base + k
      below i t = ground arith

      is_pivot : (i : ℕ) (z : A) → (i == base + k) ≡ true → get_elem? xs i ≡ some z → z ≡ pivot
      is_pivot i z v e =
          let place : i ≡ base + k = ground arith in
          same_value xs (base + k) (ap (get_elem? xs) (sym place) ∙ e) at

  -- A part is sorted: its elements are shuffled and in order.
  abbrev pub Done : ℕ → ℕ → List A → List A → Type 0
  Done base right_limit xs ys =
      Shuffled base (base + right_limit) xs ys × Sorted base (base + right_limit) ys

  both-Done :
      (base right_limit k : ℕ) (xs ys us vs : List A)
      → Partitioned lt xs base right_limit k ys
      → Done base k ys us
      → Done (base + (k + 1)) (right_limit - (k + 1)) us vs
      → Done base right_limit xs vs
  both-Done base right_limit k xs ys us vs p (f, left) (g, right) =
      let e : base + (k + 1) + (right_limit - (k + 1)) ≡ base + right_limit =
        omega (arith, p.bound) in
      let g' : Shuffled (base + (k + 1)) (base + right_limit) us vs = rw (sym e) g in
      let right' : Sorted (base + (k + 1)) (base + right_limit) vs = rw (sym e) right in
      (
        trans-Shuffled p.shuffled (
            trans-Shuffled
              (widen-Shuffled base (base + right_limit) (omega arith) (omega (arith, p.bound)) f)
              (widen-Shuffled base (base + right_limit) (omega arith) (omega arith) g')),
        join-Sorted base k (base + right_limit) vs p.pivot
            (g'.outside (base + k) (inl (omega arith))
              ∙ f.outside (base + k) (inr (omega arith))
              ∙ p.at)
            (outside-All (base + (k + 1)) (base + right_limit) us vs g' (inl (omega arith))
              (shuffle-All ys us f p.less))
            (shuffle-All us vs g'
              (outside-All base (base + k) ys us f (inr (omega arith)) p.others))
            (λ i j li bi ij bj x y ex ey.
              left i j li bi ij bj x y (sym (g'.outside i (inl (omega arith))) ∙ ex)
                (sym (g'.outside j (inl (omega arith))) ∙ ey))
            right',
      )

  -- For an order, a part within the array and more fuel than the part has elements: SortCore ends
  -- without an access out of bounds. The part is then in ascending order and has its elements, each as
  -- often as before, and the rest of the array is as it was.
  pub sort_core-Done :
      (fuel : ℕ) (xs : List A) (base right_limit : ℕ)
      → base + right_limit ≤ length xs
      → right_limit < fuel
      → Ensures (Done base right_limit xs) (sort_core lt fuel xs base right_limit)
  unfolding sort_core
  sort_core-Done zero xs base right_limit room enough = absurd (omega arith)
  sort_core-Done (suc fuel) xs base right_limit room enough = elim (Bool-cases (right_limit == 0)) [
    | inl e ↦ rw e (
        yields
          (refl-Shuffled base (base + right_limit) xs, λ i j li bi ij bj. absurd (ground arith)))
    | inr e ↦ elim (Bool-cases (leb right_limit 256)) [
      | inl s ↦ rw (e, s) (insertion_sort-Sorted lt order xs base right_limit room (ground arith))
      | inr s ↦
          rw (e, s)
            (bind-Ensures (partition-Partitioned lt xs base right_limit room (ground arith)) λ r p.
              bind-Ensures
                (sort_core-Done fuel (r.1) base (r.0)
                  (rw (p.shuffled.size) (omega (arith, p.bound))) (omega (arith, p.bound)))
                λ us left.
                  mono-Ensures
                    (sort_core-Done fuel us (base + (r.0 + 1)) (right_limit - (r.0 + 1))
                      (rw (left.0.size, p.shuffled.size) (omega (arith, p.bound)))
                      (omega (arith, p.bound)))
                    λ vs right. both-Done base right_limit (r.0) xs (r.1) us vs p left right)
    ]
  ]

  -- For an order and an array of the given size: Sort ends without an access out of bounds. Its result
  -- is in ascending order, and as many of its elements as of the array's pass any test.
  pub sort-Sorted :
      (xs : List A) (n : ℕ)
      → length xs ≡ n
      → (ys : List A) × (sort lt xs n ≡ some ys)
        × (length ys ≡ n)
        × ((i j : ℕ)
            → i < j
            → j < n
            → (x y : A) → get_elem? ys i ≡ some x
            → get_elem? ys j ≡ some y
            → lt y x ≡ false)
        × ((p : A → Bool) → count p ys ≡ count p xs)
  unfolding sort
  sort-Sorted xs n size =
      let (ys, e, (f, sorted)) =
        result-Ensures (sort_core-Done (suc n) xs 0 n (rw size (omega arith)) (omega arith)) in
      (
        ys,
        e,
        f.size ∙ size,
        λ i j ij bj x y ex ey. sorted i j (omega arith) (omega arith) ij (omega arith) x y ex ey,
        f.same_count,
      )
