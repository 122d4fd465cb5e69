-- ===== src/Pic/Bags.antt =====
-- The bags of all cells together: each well formed, no chunk in two of them.
use optitrust.Prelude.{
  ℕ, ◌≡◌, refl, sym, ap, ◌∙◌, ◌⊎◌, inl, inr, Bool, true, false, Option, none, some, ◌==◌, arith,
  if◌then◌else◌, Bool-cases, true≢false,
}
use optitrust.Memory.{Ptr, State, cell}
use optitrust.Memory.Allocator.{Region}
use optitrust.Bag.{Bag}
use optitrust.Bag.Chain.{Cells, has, Seg-same}
use optitrust.Bag.Shape.{IsBag}

-- `bagsCur[i]` and `bagsNext[i]`.
pub data Slot : Type 0 where
  cur : ℕ → Slot
  next : ℕ → Slot

abbrev pub same_slot : Slot → Slot → Bool
same_slot (cur i) (cur j) = i == j
same_slot (cur i) (next j) = false
same_slot (next i) (cur j) = false
same_slot (next i) (next j) = i == j

abbrev pub upd : {A : Type 0} → Slot → A → (Slot → A) → Slot → A
upd s v f t = if same_slot s t then v else f t

same_slot-eq : (s t : Slot) → same_slot s t ≡ true → s ≡ t
same_slot-eq (cur i) (cur j) e = ap cur (ground (arith, e))
same_slot-eq (cur i) (next j) e = absurd (cc)
same_slot-eq (next i) (cur j) e = absurd (cc)
same_slot-eq (next i) (next j) e = ap next (ground (arith, e))

same_slot_refl : (s : Slot) → same_slot s s ≡ true
same_slot_refl (cur i) = ground arith
same_slot_refl (next i) = ground arith

pub same_slot_sym : (s t : Slot) → same_slot s t ≡ same_slot t s
same_slot_sym (cur i) (cur j) = ground arith
same_slot_sym (cur i) (next j) = refl
same_slot_sym (next i) (cur j) = refl
same_slot_sym (next i) (next j) = ground arith

pub upd-here : {A : Type 0} (s : Slot) (v : A) (f : Slot → A) → upd s v f s ≡ v
upd-here s v f = rw (same_slot_refl s) refl

pub upd-there :
    {A : Type 0} (s t : Slot) (v : A) (f : Slot → A) → same_slot s t ≡ false → upd s v f t ≡ f t
upd-there s t v f n = rw n refl

abbrev pub held : {P : Type 0} → Option (Cells P) → Ptr → Bool
held none a = false
held (some cs) a = has a cs

module _ {Pool P : Type 0} (capacity : ℕ) where
  -- The bag at `s`, if it is alive, has the chunks `c s`.
  pub record Owned (st : State Pool P) (u : Region) (at : Slot → Option Bag)
      (c : Slot → Option (Cells P)) : Type 0 where
    pub bags :
        (s : Slot) (cs : Cells P)
        → c s ≡ some cs
        → (b : Bag) × (at s ≡ some b) × IsBag capacity st u b cs
    pub apart :
        (s t : Slot)
        → same_slot s t ≡ false
        → (a : Ptr) → held (c s) a ≡ true
        → held (c t) a ≡ false

  held-Owned :
      (st : State Pool P) (u : Region) (at : Slot → Option Bag) (c : Slot → Option (Cells P))
      → Owned st u at c
      → (s : Slot) (a : Ptr) → held (c s) a ≡ true
      → u a ≡ true
  held-Owned st u at c o s a h = go (c s) refl h
    where
      go : (v : Option (Cells P)) → c s ≡ v → held v a ≡ true → u a ≡ true
      go none e h' = absurd (cc)
      go (some cs) e h' = let (b, _, is) = o.bags s cs e in is.owned a h'

  pub IsBag-same :
      (st st' : State Pool P) (u u' : Region) (b : Bag) (cs : Cells P)
      → IsBag capacity st u b cs
      → ((a : Ptr) → has a cs ≡ true → (cell st'.heap a ≡ cell st.heap a) × (u' a ≡ true))
      → IsBag capacity st' u' b cs
  IsBag-same st st' u u' b cs is keep = record {
    chain = Seg-same is.chain λ a h. (let (e, _) = keep a h in e);
    owned = λ a h. (let (_, i) = keep a h in i);
    back = is.back;
    room = is.room;
  }

  -- One bag changes: the others stay what they are when their chunks are spared, and when the new
  -- chunks of the bag were in use by no bag.
  pub Owned-upd :
      (st st' : State Pool P) (u u' : Region) (at : Slot → Option Bag) (c : Slot → Option (Cells P))
      (s : Slot) (w : Option Bag) (v : Option (Cells P))
      → Owned st u at c
      → ((cs : Cells P) → v ≡ some cs → (b : Bag) × (w ≡ some b) × IsBag capacity st' u' b cs)
      → ((a : Ptr)
          → u a ≡ true
          → held (c s) a ≡ false
          → (cell st'.heap a ≡ cell st.heap a) × (u' a ≡ true))
      → ((a : Ptr) → held v a ≡ true → (held (c s) a ≡ true) ⊎ (u a ≡ false))
      → Owned st' u' (upd s w at) (upd s v c)
  Owned-upd st st' u u' at c s w v o new keep fresh = record {
    bags = λ t cs e. bags_of t cs e (Bool-cases (same_slot s t));
    apart = λ t t' ne a h.
        apart_of t t' ne a h (Bool-cases (same_slot s t)) (Bool-cases (same_slot s t'));
  }
    where
      outside : (t : Slot) (a : Ptr) → u a ≡ false → held (c t) a ≡ false
      outside t a out = elim (Bool-cases (held (c t) a)) [
        | inl i ↦ absurd (true≢false (sym (held-Owned st u at c o t a i) ∙ out))
        | inr n ↦ n
      ]

      bags_of :
          (t : Slot) (cs : Cells P)
          → upd s v c t ≡ some cs
          → (same_slot s t ≡ true) ⊎ (same_slot s t ≡ false)
          → (b : Bag) × (upd s w at t ≡ some b) × IsBag capacity st' u' b cs
      bags_of t cs e (inl y) = rw y (new cs (rw y at e))
      bags_of t cs e (inr n) =
          let e' : c t ≡ some cs = rw n at e in
          let (b, here, is) = o.bags t cs e' in
          rw n (
            b,
            here,
            IsBag-same st st' u u' b cs is
                λ a h. keep a (is.owned a h) (o.apart t s (same_slot_sym t s ∙ n) a (rw e' h)),
          )

      apart_of :
          (t t' : Slot)
          → same_slot t t' ≡ false
          → (a : Ptr) → held (upd s v c t) a ≡ true
          → (same_slot s t ≡ true) ⊎ (same_slot s t ≡ false)
          → (same_slot s t' ≡ true) ⊎ (same_slot s t' ≡ false)
          → held (upd s v c t') a ≡ false
      apart_of t t' ne a h (inl y) (inl y') = absurd (
          true≢false (
            sym (same_slot_refl t')
            ∙ ap (λ r. same_slot r t') (sym (same_slot-eq s t' y') ∙ same_slot-eq s t y)
            ∙ ne))
      apart_of t t' ne a h (inl y) (inr n') =
          rw n' (elim (fresh a (rw y at h)) [
            | inl i ↦ o.apart s t' n' a i
            | inr out ↦ outside t' a out
          ])
      apart_of t t' ne a h (inr n) (inl y') =
          let i : held (c t) a ≡ true = rw n at h in
          rw y' (elim (Bool-cases (held v a)) [
            | inl b ↦ elim (fresh a b) [
              | inl j ↦ absurd (true≢false (sym j ∙ o.apart t s (same_slot_sym t s ∙ n) a i))
              | inr out ↦ absurd (true≢false (sym i ∙ outside t a out))
            ]
            | inr b ↦ b
          ])
      apart_of t t' ne a h (inr n) (inr n') = rw n' (o.apart t t' ne a (rw n at h))
