-- ===== src/Bag/Init.antt =====
-- `bag_init` and `bag_init_using`, and a new chunk put in front of a bag.
use optitrust.Prelude.{
  ℕ, ◌<◌, ◌≡◌, refl, ap, ◌∙◌, true, false, List, [], ◌∷◌, arith, Bool-cases, inl, inr,
}
use optitrust.Memory.{Ptr, null, State}
use optitrust.Memory.Returns
use optitrust.Memory.Returns.{Returns, returns}
use optitrust.Memory.Allocator.{Allocator, IsAllocator, Region, SameOn, insert, remove}
use optitrust.Bag.{Bag, bag_init_using, bag_init, bag_add_front_chunk_serial}
use optitrust.Bag.Chain.{Cells, has, last_ptr, Seg, nil, cons, Seg-same}
use optitrust.Bag.Shape.{IsBag, empty_chunk}

-- A region that owns some chunks does not have the address of a new one among them.
pub not-has_of_new :
    {P : Type 0} {u : Region} {q : Ptr} (cs : Cells P)
    → ((a : Ptr) → has a cs ≡ true → u a ≡ true)
    → u q ≡ false
    → has q cs ≡ false
not-has_of_new {q} cs owned new = elim (Bool-cases (has q cs)) [
  | inl i ↦ ground (arith, owned q i)
  | inr o ↦ o
]

module _ {Pool P : Type 0} {A : Allocator Pool P} {capacity : ℕ} (L : IsAllocator A capacity) where
  -- A bag of one empty chunk at `c`, and nothing else of the region is touched.
  pub bag_init_using-IsBag :
      (st : State Pool P) (u : Region) (c : Ptr)
      → 0 < capacity
      → L.Valid st u
      → u c ≡ true
      → Returns
          (λ b st'.
            (b.front ≡ c)
            × IsBag capacity st' u b ((c, []) ∷ [])
            × L.Valid st' u
            × SameOn (remove c u) st st')
          (bag_init_using A capacity c st)
  unfolding bag_init_using last_ptr
  bag_init_using-IsBag st u c pos v i =
      Returns.mono (empty_chunk L (record { front = c; back = c }) st u c null v i) λ b st' (e, m).
        (
          ap (λ (d : Bag). d.front) e,
          record {
            chain = rw e (cons m.empty refl nil);
            owned = λ a ia. let e : c ≡ a = ground arith in rw (← e) i;
            back = ap (λ (d : Bag). d.back) e;
            room = pos;
          },
          m.valid,
          m.same,
        )

  -- With chunks of at least one place, `bag_init` returns a well-formed bag of one empty chunk that was
  -- not in use before, and touches nothing else.
  pub bag_init-IsBag :
      (st : State Pool P) (u : Region)
      → 0 < capacity
      → L.Valid st u
      → Returns
          (λ b st'.
            (u b.front ≡ false)
            × IsBag capacity st' (insert b.front u) b ((b.front, []) ∷ [])
            × L.Valid st' (insert b.front u)
            × SameOn u st st')
          (bag_init A capacity st)
  unfolding bag_init
  bag_init-IsBag st u pos v = Returns.bind (L.alloc-Valid st u v) λ c st1 (new, v1, same1).
      Returns.mono (bag_init_using-IsBag st1 (insert c u) c pos v1 (ground arith))
        λ b st2 (e, is, v2, same2).
          (rw e new, rw (← e) at is, rw (← e) at v2, λ a ia. same2 a (ground arith) ∙ same1 a ia)

  -- A new empty chunk in front of the chain of a bag.
  pub bag_add_front_chunk_serial-IsBag :
      (st : State Pool P) (u : Region) (b : Bag) (p : Ptr) (xs : List P) (cs : Cells P)
      → 0 < capacity
      → L.Valid st u
      → Seg capacity st null b.front ((p, xs) ∷ cs)
      → ((a : Ptr) → has a ((p, xs) ∷ cs) ≡ true → u a ≡ true)
      → b.back ≡ last_ptr p cs
      → Returns
          (λ b' st'.
            (u b'.front ≡ false)
            × IsBag capacity st' (insert b'.front u) b' ((b'.front, []) ∷ (p, xs) ∷ cs)
            × L.Valid st' (insert b'.front u)
            × SameOn u st st')
          (bag_add_front_chunk_serial A capacity b st)
  unfolding bag_add_front_chunk_serial last_ptr
  bag_add_front_chunk_serial-IsBag st u b p xs cs pos v s owned back =
      Returns.bind (L.alloc-Valid st u v) λ c st1 (new, v1, same1).
        Returns.mono
          (empty_chunk L (record b { front = c }) st1 (insert c u) c b.front v1 (ground arith))
          λ b' st2 (e, m).
            let same : SameOn u st st2 = λ a ia. m.same a (ground arith) ∙ same1 a ia in
            let out = not-has_of_new ((p, xs) ∷ cs) owned new in
            rw e (
              new,
              record {
                chain = cons m.empty out (Seg-same s λ a ia. same a (owned a ia));
                owned = λ a ia. ground (arith, owned a);
                back = back;
                room = pos;
              },
              m.valid,
              same,
            )
