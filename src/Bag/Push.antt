-- ===== src/Bag/Push.antt =====
-- `bag_push`: the particle goes behind those of the front chunk, and a full front chunk gets a new
-- empty one before it.
use optitrust.Prelude.{
  ℕ, ◌+◌, ◌<◌, ◌≡◌, sym, ap, ◌∙◌, true, false, Bool, List, [], ◌∷◌, ◌++◌, arith, ◌==◌, Bool-cases,
  ◌⊎◌, inl, inr, if◌then◌else◌, length, length-append, length-set, take-set, set, some,
  get_elem?-lt, true≢false,
}
use mathlib.Core.List.{Perm, perm_middle, append_assoc}
use native.Mathlib.Numerals.{add-one}
use optitrust.Memory.{Ptr, null, State, Chunk, write, cell, ok}
use optitrust.Memory.Points.{load-ok, set_size-ok, set_item-ok, Points-write}
use optitrust.Memory.Returns
use optitrust.Memory.Returns.{Returns, returns}
use optitrust.Memory.Allocator.{Allocator, IsAllocator, Region, SameOn, insert}
use optitrust.Bag.{Bag, bag_add_front_chunk_serial, bag_push_serial, bag_push}
use optitrust.Bag.Chain.{Cells, elems, has, last_ptr, Holds, Seg, nil, cons, Seg-same, size-eq}
use optitrust.Bag.Shape.{IsBag, HasRoom, without}
use optitrust.Bag.Init.{bag_add_front_chunk_serial-IsBag}

-- The next particle fills the front chunk.
abbrev pub fills : {P : Type 0} → ℕ → Cells P → Bool
fills capacity [] = false
fills capacity ((_, xs) ∷ cs) = length xs + 1 == capacity

-- The chunks after a push, if a new chunk would stand at `q`.
abbrev pub pushed : {P : Type 0} → ℕ → Ptr → P → Cells P → Cells P
pushed capacity q x [] = []
pushed capacity q x ((p, xs) ∷ cs) =
    if length xs + 1 == capacity then (q, []) ∷ (p, xs ++ x ∷ []) ∷ cs else (p, xs ++ x ∷ []) ∷ cs

module _ {Pool P : Type 0} {A : Allocator Pool P} {capacity : ℕ} (L : IsAllocator A capacity) where
  -- `b'` holds what `b` held and `x`; `u'` is the region with the new chunk, if there is one.
  pub record Pushed (st : State Pool P) (u : Region) (b : Bag) (x : P) (cs : Cells P) (b' : Bag)
      (st' : State Pool P) : Type 0 where
    pub region : Region
    pub grown : (a : Ptr) → region a ≡ (if fills capacity cs then insert b'.front u a else u a)
    pub new : fills capacity cs ≡ true → u b'.front ≡ false
    pub bag : IsBag capacity st' region b' (pushed capacity b'.front x cs)
    pub valid : L.Valid st' region
    pub same : SameOn (without cs u) st st'

  -- After the particle is stored; what is left to do depends on whether the chunk is full.
  record Stored (st : State Pool P) (u : Region) (b : Bag) (q : Ptr) (x : P) (xs : List P)
      : Type 0 where
    after : State Pool P
    runs : bag_push_serial A capacity b x st ≡ (
        if length xs + 1 == capacity
        then bag_add_front_chunk_serial A capacity b after
        else ok b after)
    holds : Holds capacity after b.front q (xs ++ x ∷ [])
    valid : L.Valid after u
    same : (a : Ptr) → (b.front == a) ≡ false → cell after.heap a ≡ cell st.heap a

  bag_push_serial-Stored :
      (st : State Pool P) (u : Region) (b : Bag) (q : Ptr) (x : P) (xs : List P)
      → L.Valid st u
      → u b.front ≡ true
      → Holds capacity st b.front q xs
      → length xs < capacity
      → Stored st u b q x xs
  unfolding bag_push_serial
  bag_push_serial-Stored st u b q x xs v i e lt =
      let c = e.chunk in
      let room : c.size < length c.items = let f = e.places in omega (arith, size-eq e) in
      let (y, at) = get_elem?-lt c.items c.size room in
      let sized : Chunk P = record c { size = c.size + 1 } in
      let pts = Points-write e.points sized in
      let filled : Chunk P = record sized { items = set c.items c.size x } in
      let places : length filled.items ≡ capacity = length-set c.items c.size x ∙ e.places in
      record {
        after = write (write st b.front (some sized)) b.front (some filled);
        runs =
            rw (load-ok e.points, set_size-ok e.points (c.size + 1), set_item-ok pts c.size x at)
              (let n = size-eq e in ground arith);
        holds = record {
          chunk = filled;
          points = Points-write pts filled;
          places = places;
          leads = e.leads;
          fits = let f = e.places in omega arith;
          contents =
              rw add-one (take-set c.items c.size x room ∙ ap (λ ys. ys ++ x ∷ []) e.contents);
        };
        valid = L.stable _ u b.front filled (L.stable st u b.front sized v i e.places) i places;
        same = λ a o. rw o;
      }

  -- The chain behind the front chunk lies elsewhere, so it is as before.
  Stored-Seg :
      {st : State Pool P} {u : Region} {b : Bag} {q : Ptr} {x : P} {xs : List P} {cs : Cells P}
      (s : Stored st u b q x xs)
      → has b.front cs ≡ false
      → Seg capacity st null q cs
      → Seg capacity s.after null b.front ((b.front, xs ++ x ∷ []) ∷ cs)
  Stored-Seg {b} {cs} s out rest =
      cons s.holds out (Seg-same rest λ a ia. s.same a (apart a ia (Bool-cases (b.front == a))))
    where
      apart :
          (a : Ptr)
          → has a cs ≡ true
          → ((b.front == a) ≡ true) ⊎ ((b.front == a) ≡ false)
          → (b.front == a) ≡ false
      apart a ia (inl e) =
          let e' : b.front ≡ a = ground arith in absurd (true≢false (sym ia ∙ rw (← e') out))
      apart a ia (inr o) = o

  push-Seg :
      (st : State Pool P) (u : Region) (bk : Ptr) (x : P) {p : Ptr} {cs : Cells P}
      → L.Valid st u
      → Seg capacity st null p cs
      → ((a : Ptr) → has a cs ≡ true → u a ≡ true)
      → bk ≡ last_ptr null cs
      → HasRoom capacity cs
      → Returns
          (Pushed st u (record { front = p; back = bk }) x cs)
          (bag_push_serial A capacity (record { front = p; back = bk }) x st)
  unfolding last_ptr
  push-Seg st u bk x v nil owned back room = absurd room
  push-Seg st u bk x v (cons {p} {q} {xs} {cs} e out rest) owned back room =
      let b : Bag = record { front = p; back = bk } in
      let s = bag_push_serial-Stored st u b q x xs v (owned p (ground arith)) e room in
      let chain = Stored-Seg s out rest in
      rw s.runs (elim (Bool-cases (length xs + 1 == capacity)) [
        | inl full ↦ rw full (
            Returns.mono
              (bag_add_front_chunk_serial-IsBag L s.after u b p (xs ++ x ∷ []) cs (omega arith)
                s.valid chain owned back)
              λ b' st' (new, is, v', same). record {
                region = insert b'.front u;
                grown = λ a. rw full;
                new = λ _. new;
                bag = rw full is;
                valid = v';
                same = λ a ia. same a (ground arith) ∙ s.same a (ground arith);
              })
        | inr more ↦ rw more (
            returns (record {
              region = u;
              grown = λ a. rw more;
              new = λ f. cc;
              bag = rw more (record {
                chain = chain;
                owned = owned;
                back = back;
                room = ground (arith, length-append xs (x ∷ []));
              });
              valid = s.valid;
              same = λ a ia. s.same a (ground arith);
            }))
      ])

  -- In a well-formed bag `bag_push` returns, the bag is well formed again, its front chunk holds the
  -- new particle last, a full front chunk gets a new chunk in front, and no other chunk changes.
  pub bag_push-Pushed :
      (st : State Pool P) (u : Region) (b : Bag) (x : P) (cs : Cells P)
      → L.Valid st u
      → IsBag capacity st u b cs
      → Returns (Pushed st u b x cs) (bag_push A capacity b x st)
  unfolding bag_push
  bag_push-Pushed st u b x cs v is = push-Seg st u b.back x v is.chain is.owned is.back is.room

  pub pushed-elems :
      (q : Ptr) (x : P) (cs : Cells P)
      → HasRoom capacity cs
      → Perm (elems (pushed capacity q x cs)) (x ∷ elems cs)
  unfolding elems
  pushed-elems q x [] room = absurd room
  pushed-elems q x ((p, xs) ∷ cs) room = elim (Bool-cases (length xs + 1 == capacity)) [
    | inl full ↦ rw (full, append_assoc) (perm_middle xs (elems cs))
    | inr more ↦ rw (more, append_assoc) (perm_middle xs (elems cs))
  ]

  -- In the view that forgets order, `bag_push` adds the particle to a well-formed bag and nothing else,
  -- and the bag stays well formed.
  pub bag_push-elems :
      (st : State Pool P) (u : Region) (b : Bag) (x : P) (cs : Cells P)
      → L.Valid st u
      → IsBag capacity st u b cs
      → Returns
          (λ b' st'.
            (u' : Region) × (cs' : Cells P) × L.Valid st' u'
            × IsBag capacity st' u' b' cs'
            × Perm (elems cs') (x ∷ elems cs))
          (bag_push A capacity b x st)
  bag_push-elems st u b x cs v is = Returns.mono (bag_push-Pushed st u b x cs v is) λ b' st' m.
      (m.region, pushed capacity b'.front x cs, m.valid, m.bag, pushed-elems b'.front x cs is.room)
