-- ===== src/Quicksort/Shuffle.antt =====
-- A part of an array is shuffled: no element is lost, added or brought in, and the rest stays.
use optitrust.Prelude.{
  ℕ, zero, suc, ◌+◌, ◌<◌, ◌≤◌, ◌≡◌, ◌⊎◌, ◌≢◌, ◌&&◌, leb, ltb, refl, sym, ap, ◌∙◌, Bool, true, false,
  some, List, [], ◌∷◌, length, length-set, get_elem?, get_elem?-lt, get_elem?-set, set, ◌==◌,
  if◌then◌else◌, Bool-cases, inl, inr, arith,
}
use optitrust.Loops.{write}
use optitrust.Loops.Ensures.{Ensures, yields}
use optitrust.Quicksort.{swap}

-- How many elements pass the test.
abbrev one : Bool → ℕ
one true = 1
one false = 0

module _ {A : Type 0} where
  abbrev pub count : (A → Bool) → List A → ℕ
  count p [] = 0
  count p (x ∷ xs) = one (p x) + count p xs

  count-set :
      (p : A → Bool) (xs : List A) (i : ℕ) (x v : A)
      → get_elem? xs i ≡ some x
      → count p (set xs i v) + one (p x) ≡ count p xs + one (p v)
  count-set p [] i x v e = cc
  count-set p (y ∷ xs) zero x v e = (let same : y ≡ x = cc in rw same (omega arith))
  count-set p (y ∷ xs) (suc i) x v e = (let ih = count-set p xs i x v e in omega (arith, ih))

  pub record Shuffled (lo hi : ℕ) (xs ys : List A) : Type 0 where
    pub size : length ys ≡ length xs
    pub same_count : (p : A → Bool) → count p ys ≡ count p xs
    pub outside : (i : ℕ) → (i < lo) ⊎ (hi ≤ i) → get_elem? ys i ≡ get_elem? xs i
    pub inside :
        (i : ℕ)
        → lo ≤ i
        → i < hi
        → (j : ℕ) × (lo ≤ j) × (j < hi) × (get_elem? ys i ≡ get_elem? xs j)

  pub refl-Shuffled : (lo hi : ℕ) (xs : List A) → Shuffled lo hi xs xs
  refl-Shuffled lo hi xs = record {
    size = refl;
    same_count = λ p. refl;
    outside = λ i h. refl;
    inside = λ i l h. (i, l, h, refl);
  }

  pub trans-Shuffled :
      {lo hi : ℕ} {xs ys zs : List A}
      → Shuffled lo hi xs ys
      → Shuffled lo hi ys zs
      → Shuffled lo hi xs zs
  trans-Shuffled f g = record {
    size = g.size ∙ f.size;
    same_count = λ p. g.same_count p ∙ f.same_count p;
    outside = λ i h. g.outside i h ∙ f.outside i h;
    inside = λ i l h.
        (let (j, lj, hj, e) = g.inside i l h in
          let (k, lk, hk, e') = f.inside j lj hj in (k, lk, hk, e ∙ e'));
  }

  -- A shuffle of a part is one of the whole.
  pub widen-Shuffled :
      {lo hi : ℕ} (lo' hi' : ℕ) {xs ys : List A}
      → lo' ≤ lo
      → hi ≤ hi'
      → Shuffled lo hi xs ys
      → Shuffled lo' hi' xs ys
  widen-Shuffled {lo} {hi} lo' hi' low high f = record {
    size = f.size;
    same_count = f.same_count;
    outside = λ i h. f.outside i (elim h [ inl l ↦ inl (omega arith) | inr r ↦ inr (omega arith) ]);
    inside = λ i l h. elim (Bool-cases (leb lo i && ltb i hi)) [
      | inl e ↦
          let (j, lj, hj, at) = f.inside i (ground arith) (ground arith) in
          (j, omega arith, omega arith, at)
      | inr e ↦ (i, l, h, f.outside i (beyond i e))
    ];
  }
    where
      beyond : (i : ℕ) → (leb lo i && ltb i hi) ≡ false → (i < lo) ⊎ (hi ≤ i)
      beyond i e = elim (Bool-cases (leb lo i)) [
        | inl t ↦ inr (ground arith)
        | inr f ↦ inl (ground arith)
      ]

  swapped :
      (xs : List A) (a b i : ℕ) (x y : A)
      → a < length xs
      → b < length xs
      → get_elem? (set (set xs a y) b x) i
        ≡ (if b == i then some x else if a == i then some y else get_elem? xs i)
  swapped xs a b i x y ha hb =
      get_elem?-set (set xs a y) b i x (rw (length-set xs a y) hb)
      ∙ elim (Bool-cases (b == i)) [ inl e ↦ rw e refl | inr e ↦ rw e (get_elem?-set xs a i y ha) ]

  -- What swap does to two elements of a part, and to the rest.
  pub record Swapped (a b : ℕ) (xs ys : List A) : Type 0 where
    pub first : get_elem? ys a ≡ get_elem? xs b
    pub second : get_elem? ys b ≡ get_elem? xs a
    pub rest : (i : ℕ) → i ≢ a → i ≢ b → get_elem? ys i ≡ get_elem? xs i

  pub swap-Shuffled :
      (lo hi : ℕ) (xs : List A) (a b : ℕ)
      → lo ≤ a
      → a < hi
      → lo ≤ b
      → b < hi
      → hi ≤ length xs
      → Ensures (λ ys. Shuffled lo hi xs ys × Swapped a b xs ys) (swap xs a b)
  unfolding swap write
  swap-Shuffled lo hi xs a b la ha lb hb room =
      let (x, ex) = get_elem?-lt xs a (omega arith) in
      let (y, ey) = get_elem?-lt xs b (omega arith) in
      let (z, ez) = get_elem?-lt (set xs a y) b (rw (length-set xs a y) (omega arith)) in
      run x y z ex ey ez
    where
      swap_pair :
          (x y : A)
          → get_elem? xs a ≡ some x
          → get_elem? xs b ≡ some y
          → Swapped a b xs (set (set xs a y) b x)
      swap_pair x y ex ey = record {
        first = swapped xs a b a x y (omega arith) (omega arith) ∙ elim (Bool-cases (b == a)) [
          | inl e ↦ (let same : a ≡ b = ground arith in rw e (sym ex ∙ ap (get_elem? xs) same))
          | inr e ↦ (let self : (a == a) ≡ true = ground arith in rw (e, self) (sym ey))
        ];
        second =
            swapped xs a b b x y (omega arith) (omega arith)
            ∙ (let self : (b == b) ≡ true = ground arith in rw self (sym ex));
        rest = λ i na nb. swapped xs a b i x y (omega arith) (omega arith) ∙ ground arith;
      }

      shuffled :
          (x y : A)
          → get_elem? xs a ≡ some x
          → get_elem? xs b ≡ some y
          → Shuffled lo hi xs (set (set xs a y) b x)
      shuffled x y ex ey = record {
        size = length-set (set xs a y) b x ∙ length-set xs a y;
        same_count = λ p.
            (let one_set = count-set p xs a x y ex in
              let now : get_elem? (set xs a y) b ≡ some y =
                get_elem?-set xs a b y (omega arith) ∙ ground arith in
              let two_set = count-set p (set xs a y) b y x now in omega (arith, one_set, two_set));
        outside = λ i h.
            swapped xs a b i x y (omega arith) (omega arith)
            ∙ elim h [ inl l ↦ ground arith | inr r ↦ ground arith ];
        inside = λ i l h. elim (Bool-cases (b == i)) [
          | inl e ↦ (a, la, ha, swapped xs a b i x y (omega arith) (omega arith) ∙ rw e (sym ex))
          | inr e ↦ elim (Bool-cases (a == i)) [
            | inl f ↦
                (b, lb, hb, swapped xs a b i x y (omega arith) (omega arith) ∙ rw (e, f) (sym ey))
            | inr f ↦ (i, l, h, swapped xs a b i x y (omega arith) (omega arith) ∙ rw (e, f) refl)
          ]
        ];
      }

      run :
          (x y z : A)
          → get_elem? xs a ≡ some x
          → get_elem? xs b ≡ some y
          → get_elem? (set xs a y) b ≡ some z
          → Ensures (λ ys. Shuffled lo hi xs ys × Swapped a b xs ys) (swap xs a b)
      run x y z ex ey ez = rw (ex, ey, ez) (yields (shuffled x y ex ey, swap_pair x y ex ey))
