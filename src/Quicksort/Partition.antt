-- ===== src/Quicksort/Partition.antt =====
-- Partition: the elements before the pivot are smaller, those behind it are not.
use optitrust.Prelude.{
  ℕ, ◌+◌, ◌-◌, ◌<◌, ◌≤◌, ◌≡◌, refl, sym, ap, ◌∙◌, Bool, true, false, some, List, length, get_elem?,
  get_elem?-lt, ◌==◌, Bool-cases, inl, inr, arith, ltb,
}
use optitrust.Loops.Ensures.{Ensures, yields, bind-Ensures, for_loop-Ensures}
use optitrust.Quicksort.{partition, partition_step}
use optitrust.Quicksort.Shuffle.{
  Shuffled, Swapped, swap-Shuffled, refl-Shuffled, trans-Shuffled, widen-Shuffled,
}

module _ {A : Type 0} (lt : A → A → Bool) where
  -- The elements from `lo` to `hi` all have the property.
  abbrev pub All : (A → Type 0) → ℕ → ℕ → List A → Type 0
  All P lo hi xs = (i : ℕ) → lo ≤ i → i < hi → (x : A) → get_elem? xs i ≡ some x → P x

  -- After the elements before `idx` were compared with the pivot: of these, the first `k` are smaller.
  record Split (xs : List A) (pivot : A) (base right idx k : ℕ) (ys : List A) : Type 0 where
    bound : k ≤ idx
    shuffled : Shuffled base (base + right) xs ys
    stays : get_elem? ys (base + right) ≡ get_elem? xs (base + right)
    less : All (λ x. lt x pivot ≡ true) base (base + k) ys
    others : All (λ x. lt x pivot ≡ false) (base + k) (base + idx) ys

  step-Split :
      (xs : List A) (pivot : A) (base right idx k : ℕ) (ys : List A)
      → base + right < length xs
      → idx < right
      → Split xs pivot base right idx k ys
      → Ensures
          (λ r. Split xs pivot base right (idx + 1) r.0 r.1)
          (partition_step lt pivot base idx (k, ys))
  unfolding partition_step
  step-Split xs pivot base right idx k ys room hi h =
      let (x, ex) = get_elem?-lt ys (base + idx) (rw (h.shuffled.size) (omega arith)) in run x ex
    where
      smaller :
          (x : A)
          → get_elem? ys (base + idx) ≡ some x
          → lt x pivot ≡ true
          → (zs : List A) → Shuffled base (base + right) ys zs
          → Swapped (base + k) (base + idx) ys zs
          → Split xs pivot base right (idx + 1) (k + 1) zs
      smaller x ex p zs f s = record {
        bound = omega (arith, h.bound);
        shuffled = trans-Shuffled h.shuffled f;
        stays = f.outside (base + right) (inr (omega arith)) ∙ h.stays;
        less = λ i l b y e. elim (Bool-cases (ltb i (base + k))) [
          | inl t ↦
              h.less i l (ground arith) y
                (sym (s.rest i (λ w. ground arith) (λ w. (let b = h.bound in ground arith))) ∙ e)
          | inr t ↦
              let at : i ≡ base + k = ground arith in
              let same : some x ≡ some y = sym ex ∙ sym s.first ∙ ap (get_elem? zs) (sym at) ∙ e in
              let xy : x ≡ y = cc in rw (sym xy) p
        ];
        others = λ i l b y e. elim (Bool-cases (i == base + idx)) [
          | inl t ↦
              let at : i ≡ base + idx = ground arith in
              h.others (base + k) (omega arith) (omega arith) y
                (sym s.second ∙ ap (get_elem? zs) (sym at) ∙ e)
          | inr t ↦
              h.others i (omega arith) (ground arith) y
                (sym (s.rest i (λ w. omega (arith, w)) (λ w. ground arith)) ∙ e)
        ];
      }

      run :
          (x : A)
          → get_elem? ys (base + idx) ≡ some x
          → Ensures
              (λ r. Split xs pivot base right (idx + 1) r.0 r.1)
              (partition_step lt pivot base idx (k, ys))
      run x ex = elim (Bool-cases (lt x pivot)) [
        | inl p ↦
            rw (ex, p)
              (bind-Ensures
                (swap-Shuffled base (base + right) ys (base + k) (base + idx) (omega arith)
                  (omega (arith, h.bound)) (omega arith) (omega arith)
                  (rw (h.shuffled.size) (omega arith)))
                λ zs (f, s). yields (smaller x ex p zs f s))
        | inr p ↦
            rw (ex, p)
              (yields (record {
                bound = omega (arith, h.bound);
                shuffled = h.shuffled;
                stays = h.stays;
                less = h.less;
                others = λ i l b y e. elim (Bool-cases (i == base + idx)) [
                  | inl t ↦
                      let at : i ≡ base + idx = ground arith in
                      let same : some x ≡ some y = sym ex ∙ ap (get_elem? ys) (sym at) ∙ e in
                      let xy : x ≡ y = cc in rw (sym xy) p
                  | inr t ↦ h.others i l (ground arith) y e
                ];
              }))
      ]

  -- The pivot is at its place: the elements of the part before it are smaller, the others are not.
  pub record Partitioned (xs : List A) (base right_limit k : ℕ) (ys : List A) : Type 0 where
    pub bound : k < right_limit
    pub shuffled : Shuffled base (base + right_limit) xs ys
    pub pivot : A
    pub at : get_elem? ys (base + k) ≡ some pivot
    pub less : All (λ x. lt x pivot ≡ true) base (base + k) ys
    pub others : All (λ x. lt x pivot ≡ false) (base + (k + 1)) (base + right_limit) ys

  pub partition-Partitioned :
      (xs : List A) (base right_limit : ℕ)
      → base + right_limit ≤ length xs
      → 0 < right_limit
      → Ensures (λ r. Partitioned xs base right_limit r.0 r.1) (partition lt xs base right_limit)
  unfolding partition
  partition-Partitioned xs base right_limit room pos =
      let (pivot, e) = get_elem?-lt xs (base + (right_limit - 1)) (omega arith) in
      rw e (
        bind-Ensures
          (for_loop-Ensures
            (λ idx (r : ℕ × List A). Split xs pivot base (right_limit - 1) idx r.0 r.1)
            (λ idx r hi h.
              step-Split xs pivot base (right_limit - 1) idx (r.0) (r.1) (omega arith) hi h)
            (0, xs)
            (record {
              bound = omega arith;
              shuffled = refl-Shuffled base (base + (right_limit - 1)) xs;
              stays = refl;
              less = λ i l b y q. absurd (omega arith);
              others = λ i l b y q. absurd (omega arith);
            }))
          λ r h.
            bind-Ensures
              (swap-Shuffled base (base + right_limit) (r.1) (base + r.0) (base + (right_limit - 1))
                (omega arith) (omega (arith, h.bound)) (omega arith) (omega arith)
                (rw (h.shuffled.size) room))
              λ zs (f, s). yields (record {
                bound = omega (arith, h.bound);
                shuffled =
                    trans-Shuffled
                      (widen-Shuffled base (base + right_limit) (omega arith) (omega arith)
                        h.shuffled)
                      f;
                pivot = pivot;
                at = s.first ∙ h.stays ∙ e;
                less = λ i l b y q.
                    h.less i l b y
                      (sym (s.rest i (λ w. omega (arith, w)) (λ w. omega (arith, w, h.bound))) ∙ q);
                others = λ i l b y q. elim (Bool-cases (i == base + (right_limit - 1))) [
                  | inl t ↦
                      let place : i ≡ base + (right_limit - 1) = ground arith in
                      h.others (base + r.0) (omega arith) (omega (arith, place)) y
                        (sym s.second ∙ ap (get_elem? zs) (sym place) ∙ q)
                  | inr t ↦
                      h.others i (omega arith) (ground arith) y
                        (sym (s.rest i (λ w. omega (arith, w)) (λ w. ground arith)) ∙ q)
                ];
              }))
