-- ===== src/IntMath/Extremes.antt =====
-- The extremes of an array.
use optitrust.Prelude.{
  ℕ, ◌+◌, ◌-◌, ◌<◌, ◌≡◌, refl, sym, ◌∙◌, ap, some, List, length, get_elem?, get_elem?-lt, ◌==◌,
  Bool-cases, ◌⊎◌, inl, inr, arith,
}
use optitrust.Loops.Ensures.{Ensures, yields, mono-Ensures, for_loop_from, result-Ensures}
use optitrust.Prelude.Int.{ℤ, ltb_ℤ, ◌≤ℤ◌}
use optitrust.IntMath.{int_array_max, int_array_min}

-- Below every element, or above, in the sense of `le`, and one of the elements.
abbrev pub Extreme : (ℤ → ℤ → Type 0) → List ℤ → ℕ → ℤ → Type 0
Extreme le array size m =
    ((i : ℕ) (x : ℤ) → i < size → get_elem? array i ≡ some x → le x m)
    × (i : ℕ) × (i < size)
    × (get_elem? array i ≡ some m)

first-Extreme :
    (le : ℤ → ℤ → Type 0)
    → ((x : ℤ) → le x x)
    → (array : List ℤ) (x : ℤ) → get_elem? array 0 ≡ some x
    → Extreme le array 1 x
first-Extreme le self array x e = (
  λ i y h ey.
      (let z : i ≡ 0 = omega arith in
        let both : some x ≡ some y = sym e ∙ ap (get_elem? array) (sym z) ∙ ey in
        let xy : x ≡ y = cc in rw xy (self y)),
  0,
  omega arith,
  e,
)

-- An extreme stays one where the next element is not beyond it, and that element is one where it is.
next-Extreme :
    (le : ℤ → ℤ → Type 0) (array : List ℤ) (k : ℕ) (m x r : ℤ)
    → get_elem? array k ≡ some x
    → Extreme le array k m
    → ((y : ℤ) → le y m → le y r)
    → le x r
    → ((r ≡ x) ⊎ (r ≡ m))
    → Extreme le array (k + 1) r
next-Extreme le array k m x r e (all, j, hj, ej) weaken here which =
    let place : (i : ℕ) × (i < k + 1) × (get_elem? array i ≡ some r) = elim which [
      | inl rx ↦ (k, omega arith, e ∙ ap some (sym rx))
      | inr rm ↦ (j, omega arith, ej ∙ ap some (sym rm))
    ] in
    let (i', hi', ei') = place in
    (
      λ i y h ey. elim (Bool-cases (i == k)) [
        | inl t ↦
            let at : i ≡ k = ground arith in
            let both : some x ≡ some y = sym e ∙ ap (get_elem? array) (sym at) ∙ ey in
            let xy : x ≡ y = cc in rw (sym xy) here
        | inr t ↦ weaken y (all i y (ground arith) ey)
      ],
      i',
      hi',
      ei',
    )

-- For an array of integers of the given size, at least one: int_array_max and int_array_min return
-- elements of it, and no element is greater, or smaller.
pub int_array-Extreme :
    (array : List ℤ) (size : ℕ)
    → length array ≡ size
    → 0 < size
    → ((m : ℤ) × (int_array_max array size ≡ some m) × Extreme (λ x m. x ≤ℤ m) array size m)
      × ((m : ℤ) × (int_array_min array size ≡ some m) × Extreme (λ x m. m ≤ℤ x) array size m)
unfolding int_array_max int_array_min
int_array-Extreme array size l pos =
    let (x, e) = get_elem?-lt array 0 (rw l pos) in
    let (m, em, hm) = result-Ensures (greatest x e) in
    let low = result-Ensures (least x e) in ((m, em, hm), low)
  where
    all : 1 + (size - 1) ≡ size
    all = omega arith

    greatest :
        (x : ℤ)
        → get_elem? array 0 ≡ some x
        → Ensures (Extreme (λ x m. x ≤ℤ m) array size) (int_array_max array size)
    greatest x e = rw e (
        mono-Ensures
          (for_loop_from (λ k m. Extreme (λ x m. x ≤ℤ m) array k m) _ (size - 1) 1
            (λ k m hk h.
              (let (y, ey) = get_elem?-lt array k (rw l (omega arith)) in
                rw ey (elim (Bool-cases (ltb_ℤ m y)) [
                  | inl t ↦ rw t (
                      yields (
                        next-Extreme (λ x m. x ≤ℤ m) array k m y y ey h (λ z lz. ground arith)
                          (omega arith) (inl refl)))
                  | inr t ↦ rw t (
                      yields (
                        next-Extreme (λ x m. x ≤ℤ m) array k m y m ey h (λ z lz. lz) (ground arith)
                          (inr refl)))
                ])))
            x (first-Extreme (λ x m. x ≤ℤ m) (λ x. omega arith) array x e))
          λ m h. rw (sym all) h)

    least :
        (x : ℤ)
        → get_elem? array 0 ≡ some x
        → Ensures (Extreme (λ x m. m ≤ℤ x) array size) (int_array_min array size)
    least x e = rw e (
        mono-Ensures
          (for_loop_from (λ k m. Extreme (λ x m. m ≤ℤ x) array k m) _ (size - 1) 1
            (λ k m hk h.
              (let (y, ey) = get_elem?-lt array k (rw l (omega arith)) in
                rw ey (elim (Bool-cases (ltb_ℤ y m)) [
                  | inl t ↦ rw t (
                      yields (
                        next-Extreme (λ x m. m ≤ℤ x) array k m y y ey h (λ z lz. ground arith)
                          (omega arith) (inl refl)))
                  | inr t ↦ rw t (
                      yields (
                        next-Extreme (λ x m. m ≤ℤ x) array k m y m ey h (λ z lz. lz) (ground arith)
                          (inr refl)))
                ])))
            x (first-Extreme (λ x m. m ≤ℤ x) (λ x. omega arith) array x e))
          λ m h. rw (sym all) h)
