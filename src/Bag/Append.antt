-- ===== src/Bag/Append.antt =====
-- `bag_append`, `bag_swap` and `bag_nullify`.
use optitrust.Prelude.{
  ℕ, ◌<◌, ◌≡◌, refl, sym, ◌∙◌, true, false, List, [], ◌∷◌, ◌++◌, arith, ◌==◌, some,
}
use optitrust.Memory.{Ptr, null, State, Chunk, write, cell, ok}
use optitrust.Memory.Points.{not_null, set_next-ok}
use optitrust.Memory.Returns
use optitrust.Memory.Returns.{Returns, returns}
use optitrust.Memory.Allocator.{Allocator, IsAllocator, Region, SameOn, insert}
use optitrust.Bag.{Bag, bag_append, bag_nullify}
use optitrust.Bag.Chain.{
  Cells, has, has-append, last_ptr, last_ptr-append, has-last_ptr, Holds, Seg, nil, cons, Seg-same,
  Seg-append, Seg-relink,
}
use optitrust.Bag.Shape.{IsBag, HasRoom, without}
use optitrust.Bag.Init.{bag_init-IsBag}

abbrev pub Disjoint : {P : Type 0} → Cells P → Cells P → Type 0
Disjoint cs ds = (a : Ptr) → has a cs ≡ true → has a ds ≡ false

module _ {Pool P : Type 0} {capacity : ℕ} {st : State Pool P} where
  last-Holds :
      {stop q p : Ptr} {xs : List P} {cs : Cells P}
      → Holds capacity st p q xs
      → Seg capacity st stop q cs
      → (ys : List P) × Holds capacity st (last_ptr p cs) stop ys
  unfolding last_ptr
  last-Holds e nil = (_, e)
  last-Holds e (cons e' out s) = last-Holds e' s

  Holds-set_next :
      {p q : Ptr} {ys : List P} {c : Chunk P} (r : Ptr)
      → cell st.heap p ≡ some c
      → Holds capacity st p q ys
      → Holds capacity (write st p (some (record c { next = r }))) p r ys
  Holds-set_next {p} {c} r at e =
      let same : c ≡ e.chunk = let h = e.points.holds in cc in
      record {
        chunk = record e.chunk { next = r };
        points = record { ne_null = e.points.ne_null; holds = rw same (ground arith) };
        places = e.places;
        leads = refl;
        fits = e.fits;
        contents = e.contents;
      }

last_ptr-behind :
    {P : Type 0} (capacity : ℕ) (p : Ptr) (cs ds : Cells P)
    → HasRoom capacity ds
    → last_ptr p (cs ++ ds) ≡ last_ptr null ds
unfolding last_ptr
last_ptr-behind capacity p cs [] room = absurd room
last_ptr-behind capacity p cs ((q, ys) ∷ ds) room = last_ptr-append p cs q ys ds

module _ {Pool P : Type 0} {A : Allocator Pool P} {capacity : ℕ} (L : IsAllocator A capacity) where
  front_not_null :
      {st : State Pool P} {p : Ptr} {cs : Cells P}
      → Seg capacity st null p cs
      → HasRoom capacity cs
      → (p == null) ≡ false
  front_not_null nil room = absurd room
  front_not_null (cons e out s) room = not_null e.points

  -- `b'` is the bag of both chains, and `other'` a new empty bag.
  pub record Appended (st : State Pool P) (u : Region) (cs ds : Cells P) (b' other' : Bag)
      (st' : State Pool P) : Type 0 where
    pub new : u other'.front ≡ false
    pub bag : IsBag capacity st' (insert other'.front u) b' (cs ++ ds)
    pub emptied : IsBag capacity st' (insert other'.front u) other' ((other'.front, []) ∷ [])
    pub valid : L.Valid st' (insert other'.front u)
    pub same : SameOn (without cs u) st st'

  append-Seg :
      (st : State Pool P) (u : Region) (bk : Ptr) (other : Bag) (ds : Cells P) {p : Ptr}
      {cs : Cells P}
      → 0 < capacity
      → L.Valid st u
      → Seg capacity st null p cs
      → ((a : Ptr) → has a cs ≡ true → u a ≡ true)
      → bk ≡ last_ptr null cs
      → HasRoom capacity cs
      → IsBag capacity st u other ds
      → Disjoint cs ds
      → (other.front == null) ≡ false
      → Returns
          (λ (b', other') st'. Appended st u cs ds b' other' st')
          (bag_append A capacity (record { front = p; back = bk }) other st)
  unfolding bag_append last_ptr
  append-Seg st u bk other ds pos v nil owned back room is apart void = absurd room
  append-Seg st u bk other ds pos v (cons {p} {xs} {cs} e out s) owned back room is apart void =
      let (ys, l) = last-Holds e s in
      let c = l.chunk in
      let st1 = write st (last_ptr p cs) (some (record c { next = other.front })) in
      let last_in : has (last_ptr p cs) ((p, xs) ∷ cs) ≡ true = has-last_ptr p xs cs in
      let v1 =
        L.stable st u (last_ptr p cs) (record c { next = other.front }) v (owned _ last_in)
          l.places in
      let front =
        Seg-relink {st' = st1} e out s (λ zs h. Holds-set_next other.front l.points.holds h)
          (λ a o. ground arith) in
      let behind = Seg-same {st' = st1} is.chain (λ a ia. ground (arith, apart a)) in
      rw (void, back, set_next-ok l.points other.front)
        (Returns.bind (bag_init-IsBag L st1 u pos v1) λ other' st2 (new, is', v2, same).
          returns (record {
            new = new;
            bag = record {
              chain = Seg-same (Seg-append front behind apart) λ a ia.
                  same a (ground (arith, owned a, is.owned a, has-append a ((p, xs) ∷ cs) ds));
              owned = λ a ia. ground (arith, owned a, is.owned a, has-append a ((p, xs) ∷ cs) ds);
              back = is.back ∙ sym (last_ptr-behind capacity p cs ds is.room);
              room = room;
            };
            emptied = is';
            valid = v2;
            same = λ a ia. same a (ground arith) ∙ ground (arith, last_in);
          }))

  -- Chunks have at least one place. Two well-formed bags with no chunk in common: `bag_append` returns, the first bag gets the chunks
  -- of both in order, the second a new empty chunk, and nothing outside the first changes.
  pub bag_append-Appended :
      (st : State Pool P) (u : Region) (b other : Bag) (cs ds : Cells P)
      → 0 < capacity
      → L.Valid st u
      → IsBag capacity st u b cs
      → IsBag capacity st u other ds
      → Disjoint cs ds
      → Returns
          (λ (b', other') st'. Appended st u cs ds b' other' st')
          (bag_append A capacity b other st)
  bag_append-Appended st u b other cs ds pos v is is' apart =
      append-Seg st u b.back other ds pos v is.chain is.owned is.back is.room is' apart
        (front_not_null is'.chain is'.room)

  -- A second bag that was nullified is left alone, and so is the first.
  pub bag_append-null :
      (st : State Pool P) (b : Bag)
      → bag_append A capacity b bag_nullify st ≡ ok (b, bag_nullify) st
  unfolding bag_append bag_nullify
  bag_append-null st b = refl
