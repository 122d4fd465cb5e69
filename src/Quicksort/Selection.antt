-- ===== src/Quicksort/Selection.antt =====
-- InsertionSort, which selects the smallest element of the rest.
use optitrust.Prelude.{
  ℕ, ◌+◌, ◌-◌, ◌<◌, ◌≤◌, ◌≡◌, sym, ap, ◌∙◌, Bool, true, false, some, List, length, get_elem?,
  get_elem?-lt, ◌==◌, if◌then◌else◌, Bool-cases, inl, inr, arith, ltb,
}
use optitrust.Loops.{for_loop}
use optitrust.Loops.Ensures.{
  Ensures, yields, bind-Ensures, mono-Ensures, for_loop-Ensures, for_loop_from,
}
use optitrust.Quicksort.{select_step, insertion_sort}
use optitrust.Quicksort.Shuffle.{
  Shuffled, Swapped, swap-Shuffled, refl-Shuffled, trans-Shuffled, widen-Shuffled,
}

-- `<` on int: nothing is smaller than itself, and "not smaller" is transitive.
pub record IsOrder {A : Type 0} (lt : A → A → Bool) : Type 0 where
  pub irreflexive : (x : A) → lt x x ≡ false
  pub asymmetric : (x y : A) → lt x y ≡ true → lt y x ≡ false
  pub transitive : (x y z : A) → lt y x ≡ false → lt z y ≡ false → lt z x ≡ false

pub same_value :
    {A : Type 0} (xs : List A) (i : ℕ) {x y : A}
    → get_elem? xs i ≡ some x
    → get_elem? xs i ≡ some y
    → x ≡ y
same_value xs i {x} {y} e f = (let both : some x ≡ some y = sym e ∙ f in cc)

module _ {A : Type 0} (lt : A → A → Bool) (order : IsOrder lt) where
  -- No element of the range from `lo` to `hi` is smaller than the element `m`.
  abbrev pub Least : ℕ → ℕ → ℕ → List A → Type 0
  Least m lo hi xs =
      (j : ℕ)
      → lo ≤ j
      → j < hi
      → (x y : A) → get_elem? xs m ≡ some x
      → get_elem? xs j ≡ some y
      → lt y x ≡ false

  select-Least :
      (xs : List A) (base idx right_limit : ℕ)
      → base + right_limit ≤ length xs
      → idx < right_limit
      → Ensures
          (λ m.
            (idx ≤ m) × (m < right_limit) × Least (base + m) (base + idx) (base + right_limit) xs)
          (for_loop (right_limit - (idx + 1)) (idx + 1) (select_step lt xs base) idx)
  unfolding select_step
  select-Least xs base idx right_limit room hi =
      mono-Ensures
        (for_loop_from
          (λ j m.
            (idx ≤ m)
            × (m < j)
            × (m < right_limit)
            × (idx < j)
            × Least (base + m) (base + idx) (base + j) xs)
          _ (right_limit - (idx + 1)) (idx + 1)
          (λ j m hj (l, b, r, ij, least).
            (let (x, ex) = get_elem?-lt xs (base + m) (omega arith) in
              let (y, ey) = get_elem?-lt xs (base + j) (omega arith) in
              rw (ex, ey) (yields (compared j m x y hj l b r ij ex ey least))))
          idx
          (
            omega arith,
            omega arith,
            hi,
            omega arith,
            λ j l b x y e f.
                (let same : j ≡ base + idx = omega arith in
                  let both : some x ≡ some y = sym e ∙ ap (get_elem? xs) (sym same) ∙ f in
                  let xy : x ≡ y = cc in rw xy (order.irreflexive y)),
          ))
        λ m (l, b, r, ij, least). (l, r, λ j lo bj. least j lo (omega arith))
    where
      compared :
          (j m : ℕ) (x y : A)
          → j < idx + 1 + (right_limit - (idx + 1))
          → idx ≤ m
          → m < j
          → m < right_limit
          → idx < j
          → get_elem? xs (base + m) ≡ some x
          → get_elem? xs (base + j) ≡ some y
          → Least (base + m) (base + idx) (base + j) xs
          → (idx ≤ (if lt y x then j else m))
            × ((if lt y x then j else m) < j + 1)
            × ((if lt y x then j else m) < right_limit)
            × (idx < j + 1)
            × Least (base + (if lt y x then j else m)) (base + idx) (base + (j + 1)) xs
      compared j m x y hj l b r ij ex ey least = elim (Bool-cases (lt y x)) [
        | inl p ↦ rw p (
          omega arith,
          omega arith,
          omega arith,
          omega arith,
          λ i lo bi u v eu ev.
              (let uy : u ≡ y = same_value xs (base + j) eu ey in
                elim (Bool-cases (i == base + j)) [
                  | inl t ↦
                      let place : i ≡ base + j = ground arith in
                      let vu : v ≡ u =
                        same_value xs (base + j) (ap (get_elem? xs) (sym place) ∙ ev) eu in
                      rw vu (order.irreflexive u)
                  | inr t ↦ rw uy (
                      order.transitive y x v (order.asymmetric y x p)
                        (least i lo (ground arith) x v ex ev))
                ]),
        )
        | inr p ↦ rw p (
          l,
          omega arith,
          r,
          omega arith,
          λ i lo bi u v eu ev. elim (Bool-cases (i == base + j)) [
            | inl t ↦
                let place : i ≡ base + j = ground arith in
                let vy : v ≡ y = same_value xs (base + j) (ap (get_elem? xs) (sym place) ∙ ev) ey in
                let ux : u ≡ x = same_value xs (base + m) eu ex in rw (vy, ux) p
            | inr t ↦ least i lo (ground arith) u v eu ev
          ],
        )
      ]

  -- The elements from `lo` to `mid` are in order among each other and with those up to `hi`.
  abbrev pub SortedTo : ℕ → ℕ → ℕ → List A → Type 0
  SortedTo mid lo hi xs =
      (i j : ℕ)
      → lo ≤ i
      → i < mid
      → i < j
      → j < hi
      → (x y : A) → get_elem? xs i ≡ some x
      → get_elem? xs j ≡ some y
      → lt y x ≡ false

  -- The least element of the rest comes next.
  select-SortedTo :
      (base idx m hi : ℕ) (ys zs : List A)
      → idx ≤ m
      → base + idx < hi
      → Least (base + m) (base + idx) hi ys
      → Shuffled (base + idx) hi ys zs
      → Swapped (base + idx) (base + m) ys zs
      → SortedTo (base + idx) base hi ys
      → SortedTo (base + (idx + 1)) base hi zs
  select-SortedTo base idx m hi ys zs im room least f s sorted i j li bi ij bj x y ex ey =
      elim (Bool-cases (ltb i (base + idx))) [
        | inl t ↦
            let here : get_elem? ys i ≡ some x = sym (f.outside i (inl (ground arith))) ∙ ex in
            elim (Bool-cases (ltb j (base + idx))) [
              | inl u ↦
                  sorted i j li (ground arith) ij bj x y here
                    (sym (f.outside j (inl (ground arith))) ∙ ey)
              | inr u ↦
                  let (j', lj, bj', e) = f.inside j (ground arith) bj in
                  let il : i < base + idx = ground arith in
                  sorted i j' li il (omega arith) bj' x y here (sym e ∙ ey)
            ]
        | inr t ↦
            let place : i ≡ base + idx = ground arith in
            let (j', lj, bj', e) = f.inside j (omega (arith, place)) bj in
            least j' lj bj' x y (sym s.first ∙ ap (get_elem? zs) (sym place) ∙ ex) (sym e ∙ ey)
      ]

  pub insertion_sort-Sorted :
      (xs : List A) (base right_limit : ℕ)
      → base + right_limit ≤ length xs
      → 0 < right_limit
      → Ensures
          (λ ys.
            Shuffled base (base + right_limit) xs ys
            × SortedTo (base + right_limit) base (base + right_limit) ys)
          (insertion_sort lt xs base right_limit)
  unfolding insertion_sort
  insertion_sort-Sorted xs base right_limit room pos =
      mono-Ensures
        (for_loop-Ensures
          (λ idx ys.
            Shuffled base (base + right_limit) xs ys
            × SortedTo (base + idx) base (base + right_limit) ys)
          (λ idx ys hi (f, sorted).
            (let room' : base + right_limit ≤ length ys = rw (f.size) room in
              bind-Ensures (select-Least ys base idx right_limit room' (omega arith))
                λ m (l, r, least).
                  mono-Ensures
                    (swap-Shuffled (base + idx) (base + right_limit) ys (base + idx) (base + m)
                      (omega arith) (omega arith) (omega arith) (omega arith) room')
                    λ zs (g, s). (
                      trans-Shuffled f
                          (widen-Shuffled base (base + right_limit) (omega arith) (omega arith) g),
                      select-SortedTo base idx m (base + right_limit) ys zs l (omega arith) least g
                          s sorted,
                    )))
          xs (refl-Shuffled base (base + right_limit) xs, λ i j li bi. absurd (omega arith)))
        λ ys (f, sorted). (f, λ i j li bi ij bj. sorted i j li (omega arith) ij bj)
