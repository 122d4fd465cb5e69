-- ===== src/Loops/Prefix.antt =====
-- Arrays that are written from their start: the elements before a position have their new values.
use optitrust.Prelude.{
  ℕ, ◌+◌, ◌<◌, ◌≡◌, ◌∙◌, refl, arith, some, List, length, length-set, get_elem?, get_elem?-lt,
  get_elem?-set, set, ◌==◌, Bool-cases, inl, inr, true, ltb,
}
use optitrust.Loops.{write}
use optitrust.Loops.Ensures.{Ensures, yields, mono-Ensures}

module _ {S : Type 0} where
  -- The element `q` is `new q`.
  abbrev pub Has : (ℕ → S) → List S → ℕ → Type 0
  Has new d q = get_elem? d q ≡ some (new q)

  pub record Prefix (m : ℕ) (new : ℕ → S) (p : ℕ) (d : List S) : Type 0 where
    pub size : length d ≡ m
    pub elem : (q : ℕ) → q < p → Has new d q

  -- A write of the new value gives the element it and leaves what has its own.
  pub write-Has :
      {m : ℕ} (new : ℕ → S) (d : List S) (q : ℕ) (x : S)
      → length d ≡ m
      → q < m
      → x ≡ new q
      → Ensures
          (λ d'. (length d' ≡ m) × Has new d' q × ((i : ℕ) → Has new d i → Has new d' i))
          (write d q x)
  unfolding write
  write-Has {m} new d q x size lt e =
      let (y, at) = get_elem?-lt d q (rw size lt) in
      rw at (yields (length-set d q x ∙ size, written, keep))
    where
      written : Has new (set d q x) q
      written =
          get_elem?-set d q q x (rw size lt)
          ∙ (let same : (q == q) ≡ true = ground arith in rw (same, e) refl)

      keep : (i : ℕ) → Has new d i → Has new (set d q x) i
      keep i h = get_elem?-set d q i x (rw size lt) ∙ elim (Bool-cases (q == i)) [
        | inl t ↦ (let at : q ≡ i = ground arith in rw (t, e, at) refl)
        | inr f ↦ rw f h
      ]

  pub write-Prefix :
      {m : ℕ} (new : ℕ → S) (d : List S) (p p' : ℕ) (x : S)
      → Prefix m new p d
      → p < m
      → p' ≡ p + 1
      → x ≡ new p
      → Ensures (Prefix m new p') (write d p x)
  write-Prefix new d p p' x h lt next e =
      mono-Ensures (write-Has new d p x h.size lt e) λ d' (size, at, keep). record {
        size = size;
        elem = λ q b. elim (Bool-cases (ltb q p)) [
          | inl t ↦ keep q (h.elem q (ground arith))
          | inr f ↦ (let same : q ≡ p = ground arith in rw same at)
        ];
      }

  pub move-Prefix :
      {m : ℕ} {new : ℕ → S} {d : List S} (p p' : ℕ) → p ≡ p' → Prefix m new p d → Prefix m new p' d
  move-Prefix p p' e h = record { size = h.size; elem = λ q lt. h.elem q (omega (arith, lt, e)) }
