-- ===== src/Matmul/Arrays.antt =====
-- What the loops over arrays write: each is described by the contents before and after it.
use optitrust.Prelude.{
  ℕ, ◌+◌, ◌-◌, ◌<◌, ◌≤◌, ◌≡◌, ◌≢◌, refl, sym, ◌∙◌, ap, Option, some, none, List, [], ◌∷◌, arith,
  set, ltb, leb, ◌&&◌, ◌==◌, if◌then◌else◌, length, length-set, get_elem?, get_elem?-lt,
  get_elem?-set, inl, inr, Bool-cases, suc,
}
use optitrust.Reals.{Reals, zero_real}
use optitrust.Loops.{for_loop, write}
use optitrust.Loops.Ensures.{Ensures, yields, mono-Ensures, for_loop-Ensures}
use optitrust.Matmul.{copy, fill, add_multiples}

-- A replacement of the contents `old` by `new`, in the order that `key` gives.
pub record Plan (S : Type 0) : Type 0 where
  pub size : ℕ
  pub key : ℕ → ℕ
  pub key_inj : (q q' : ℕ) → q < size → q' < size → key q ≡ key q' → q ≡ q'
  pub new : ℕ → S
  pub old : ℕ → S

module _ {S : Type 0} where
  -- `d` has `m` elements, which are `f 0`, `f 1`, …
  pub record Holds (m : ℕ) (f : ℕ → S) (d : List S) : Type 0 where
    pub size : length d ≡ m
    pub elem : (q : ℕ) → q < m → get_elem? d q ≡ some (f q)

  pub mono-Holds :
      {m : ℕ} {f g : ℕ → S} {d : List S} → Holds m f d → ((q : ℕ) → q < m → f q ≡ g q) → Holds m g d
  mono-Holds h e = record { size = h.size; elem = λ q lt. h.elem q lt ∙ ap some (e q lt) }

  same :
      (c d : List S)
      → length c ≡ length d
      → ((q : ℕ) → q < length c → get_elem? c q ≡ get_elem? d q)
      → c ≡ d
  same [] [] l e = refl
  same [] (y ∷ d) l e = absurd (omega arith)
  same (x ∷ c) [] l e = absurd (omega arith)
  same (x ∷ c) (y ∷ d) l e =
      let head : some x ≡ some y = e 0 (omega arith) in
      let tail = same c d (omega (arith, l)) λ q lt. e (suc q) (omega arith) in
      let xy : x ≡ y = cc in rw (xy, tail) refl

  -- Two arrays with the same contents are equal.
  pub Holds-unique : {m : ℕ} {f : ℕ → S} (c d : List S) → Holds m f c → Holds m f d → c ≡ d
  Holds-unique {m} c d hc hd =
      same c d (hc.size ∙ sym hd.size)
        λ q lt. hc.elem q (rw (sym hc.size) lt) ∙ sym (hd.elem q (rw (sym hc.size) lt))

  pub write-Holds :
      {m : ℕ} {f : ℕ → S} (g : ℕ → S) {d : List S} (q0 : ℕ) (x : S)
      → Holds m f d
      → q0 < m
      → x ≡ g q0
      → ((q : ℕ) → q < m → q ≢ q0 → f q ≡ g q)
      → Ensures (Holds m g) (write d q0 x)
  unfolding write
  write-Holds {m} {f} g {d} q0 x h lt new old = rw (h.elem q0 lt) (yields after)
    where
      after : Holds m g (set d q0 x)
      after = record {
        size = length-set d q0 x ∙ h.size;
        elem = λ q lt'. elim (Bool-cases (q0 == q)) [
          | inl e ↦
              get_elem?-set d q0 q x (rw h.size lt)
              ∙ (let at : q0 ≡ q = ground arith in rw (e, sym at, new) refl)
          | inr e ↦
              get_elem?-set d q0 q x (rw h.size lt)
              ∙ rw e (h.elem q lt' ∙ ap some (old q lt' (λ w. ground arith)))
        ];
      }

  -- The contents when the elements before `p` are replaced.
  abbrev pub stage : Plan S → ℕ → ℕ → S
  stage w p q = if ltb (w.key q) p then w.new q else w.old q

  abbrev pub At : Plan S → ℕ → List S → Type 0
  At w p d = Holds w.size (stage w p) d

  pub write-At :
      (w : Plan S) {d : List S} (p p' q : ℕ) (x : S)
      → At w p d
      → q < w.size
      → w.key q ≡ p
      → p' ≡ p + 1
      → x ≡ w.new q
      → Ensures (At w p') (write d q x)
  write-At w p p' q x h lt k next e = write-Holds (stage w p') q x h lt (ground arith) λ q' lt' ne.
      (let other : w.key q' ≢ p = λ u. ne (w.key_inj q' q lt' lt (u ∙ sym k)) in ground arith)

  -- The loops that write the next `n` elements.
  pub copy-At :
      (w : Plan S) {d : List S} (src : List S) (n p p' : ℕ) (to from : ℕ → ℕ)
      → ((j : ℕ)
          → j < n
          → (to j < w.size)
            × (w.key (to j) ≡ p + j)
            × (get_elem? src (from j) ≡ some (w.new (to j))))
      → p' ≡ p + n
      → At w p d
      → Ensures (At w p') (copy n d to src from)
  unfolding copy
  copy-At w {d} src n p p' to from each next h = rw next (
      for_loop-Ensures (λ j t. At w (p + j) t)
        (λ j t lt inv.
          (let (inside, at, read) = each j lt in
            rw read (
              write-At w (p + j) (p + (j + 1)) (to j) (w.new (to j)) inv inside at (omega arith)
                refl)))
        d (let base : p + 0 ≡ p = omega arith in rw base h))

  pub fill-At :
      (w : Plan S) {d : List S} (x : S) (n p p' : ℕ) (to : ℕ → ℕ)
      → ((j : ℕ) → j < n → (to j < w.size) × (w.key (to j) ≡ p + j) × (x ≡ w.new (to j)))
      → p' ≡ p + n
      → At w p d
      → Ensures (At w p') (fill n d to x)
  unfolding fill
  fill-At w {d} x n p p' to each next h = rw next (
      for_loop-Ensures (λ j t. At w (p + j) t)
        (λ j t lt inv.
          (let (inside, at, read) = each j lt in
            write-At w (p + j) (p + (j + 1)) (to j) x inv inside at (omega arith) read))
        d (let base : p + 0 ≡ p = omega arith in rw base h))

  -- A loop whose iterations take the contents from one stage to the next.
  pub nest-At :
      (w : Plan S) {body : ℕ → List S → Option (List S)} {n : ℕ} {d : List S} (at : ℕ → ℕ)
      (p p' : ℕ)
      → p ≡ at 0
      → p' ≡ at n
      → ((i : ℕ) (t : List S) → i < n → At w (at i) t → Ensures (At w (at (i + 1))) (body i t))
      → At w p d
      → Ensures (At w p') (for_loop n 0 body d)
  nest-At w {d} at p p' first last keep h =
      rw last (for_loop-Ensures (λ i t. At w (at i) t) keep d (rw (sym first) h))

  -- The first stage and the last.
  pub start-At : (w : Plan S) {d : List S} → Holds w.size w.old d → At w 0 d
  start-At w h = mono-Holds h λ q lt. ground arith

  pub end-At :
      (w : Plan S) {c : Option (List S)} (p : ℕ)
      → ((q : ℕ) → q < w.size → w.key q < p)
      → Ensures (At w p) c
      → Ensures (Holds w.size w.new) c
  end-At w p all h =
      mono-Ensures h λ d k. mono-Holds k λ q lt. (let below = all q lt in ground arith)

  -- From the first element to the last.
  abbrev pub in_order : ℕ → (ℕ → S) → (ℕ → S) → Plan S
  in_order m new old = record {
    size = m;
    key = λ q. q;
    key_inj = λ q q' _ _ e. e;
    new = new;
    old = old;
  }

module _ {S : Type 0} (R : Reals S) where
  abbrev or_zero : Option S → S
  or_zero none = zero_real R
  or_zero (some x) = x

  abbrev pub contents : List S → ℕ → S
  contents d q = or_zero (get_elem? d q)

  pub contents-Holds : (m : ℕ) (d : List S) → length d ≡ m → Holds m (contents d) d
  contents-Holds m d l = record {
    size = l;
    elem = λ q lt.
        (let (x, e) = get_elem?-lt d q (rw l lt) in
          e ∙ ap (λ (o : Option S). some (or_zero o)) (sym e));
  }

  -- The contents `f` after `g 0`, `g 1`, … were added to the `n` elements from `low` on.
  abbrev pub raised : ℕ → ℕ → (ℕ → S) → (ℕ → S) → ℕ → S
  raised low n g f q = if leb low q && ltb q (low + n) then R.add (f q) (g (q - low)) else f q

  raised-new :
      (low j : ℕ) (g f : ℕ → S)
      → R.add (raised low j g f (low + j)) (g j) ≡ raised low (j + 1) g f (low + j)
  raised-new low j g f = let back : low + j - low ≡ j = omega arith in rw back (ground arith)

  pub add_multiples-Holds :
      (m n low : ℕ) (f : ℕ → S) {d : List S} (to : ℕ → ℕ) (a : List S) (p : ℕ) (b : List S)
      (from : ℕ → ℕ) (x : S) (y : ℕ → S)
      → low + n ≤ m
      → ((j : ℕ) → j < n → (to j ≡ low + j) × (get_elem? b (from j) ≡ some (y j)))
      → get_elem? a p ≡ some x
      → Holds m f d
      → Ensures (Holds m (raised low n (λ j. R.mul x (y j)) f)) (add_multiples R n d to a p b from)
  unfolding add_multiples
  add_multiples-Holds m n low f {d} to a p b from x y room each at h =
      for_loop-Ensures (λ j t. Holds m (raised low j (λ j. R.mul x (y j)) f) t)
        (λ j t lt inv.
          (let (place, read) = each j lt in
            rw (at, read, place, inv.elem (low + j) (omega arith))
              (write-Holds (raised low (j + 1) (λ j. R.mul x (y j)) f) (low + j)
                (R.add (raised low j (λ j. R.mul x (y j)) f (low + j)) (R.mul x (y j))) inv
                (omega arith) (raised-new low j (λ j. R.mul x (y j)) f)
                (λ q lt' ne. ground arith))))
        d (mono-Holds h λ q lt. ground arith)
