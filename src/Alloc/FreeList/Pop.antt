-- ===== src/Alloc/FreeList/Pop.antt =====
-- `bag_chunk_alloc` with a free list.
use optitrust.Prelude.{
  ℕ, ◌-◌, ◌<◌, ◌≡◌, ◌≢◌, refl, sym, ap, ◌∙◌, false, some, arith, ◌==◌, ltb, get_elem?, Bool-cases,
  ◌⊎◌, inl, inr,
}
use optitrust.Memory.{null, State, exited, write}
use optitrust.Memory.Returns.{Returns, returns}
use optitrust.Memory.Allocator.{Region, SameOn, insert}
use optitrust.Alloc.{Malloc, IsMemalign, chunk_alloc}
use optitrust.Alloc.Naive.{Full-same}
use optitrust.Alloc.FreeList.{FreeList, custom_chunk_alloc}
use optitrust.Alloc.FreeList.Spare.{Spare, FreeListValid, differ, Spare-write}

module _ {P : Type 0} {capacity freelist_capacity : ℕ} (m : Malloc FreeList P)
    (im : IsMemalign m capacity) where
  -- With a valid free list, and a posix_memalign that hands out no block in use: bag_chunk_alloc exits
  -- where the free list is empty and posix_memalign fails. Otherwise it returns a chunk that is not in
  -- use, all chunks in use are whole and hold what they held, and the free list stays valid, with no chunk
  -- lost.
  pub alloc-FreeListValid :
      (st : State FreeList P) (u : Region)
      → FreeListValid capacity freelist_capacity st u
      → ((st.pool.nb ≡ 0)
          × (m.block st ≡ null)
          × (custom_chunk_alloc m freelist_capacity st ≡ exited))
        ⊎ (((st.pool.nb ≡ 0) → m.block st ≢ null)
            × Returns
                (λ p st'.
                  (u p ≡ false)
                  × FreeListValid capacity freelist_capacity st' (insert p u)
                  × SameOn u st st')
                (custom_chunk_alloc m freelist_capacity st))
  unfolding custom_chunk_alloc chunk_alloc
  alloc-FreeListValid st u v = elim (Bool-cases (ltb 0 st.pool.nb)) [
    | inl e ↦
        let s = v.spare (st.pool.nb - 1) (ground arith) in
        inr (
          λ z. absurd (ground arith),
          rw (e, s.at) (returns (s.not_out, popped s (ground arith), λ a ia. refl)),
        )
    | inr e ↦ elim (Bool-cases (m.block st == null)) [
      | inl z ↦ inl (ground arith, ground arith, rw (e, z) refl)
      | inr ne ↦
          let given : m.block st ≢ null = λ w. absurd (ground arith) in
          let out = new given in
          inr (
            λ _. given,
            rw (e, ne)
                (returns (
                  out,
                  fresh (ground arith) given,
                  λ a ia. (let other = differ u a (m.block st) ia out in ground arith),
                )),
          )
    ]
  ]
    where
      new : m.block st ≢ null → u (m.block st) ≡ false
      new given = elim (Bool-cases (u (m.block st))) [
        | inl i ↦
            let f = v.whole (m.block st) i in
            let pt = f.points in let e = pt.holds in let free = im.unused st given in cc
        | inr o ↦ o
      ]

      still :
          {i : ℕ} (s : Spare capacity st u st.pool.items (st.pool.nb - 1))
          (t : Spare capacity st u st.pool.items i)
          → 0 < st.pool.nb
          → i < st.pool.nb - 1
          → insert s.chunk u t.chunk ≡ false
      still {i} s t pos hi = elim (Bool-cases (s.chunk == t.chunk)) [
        | inl e ↦
            let same : s.chunk ≡ t.chunk = ground arith in
            let both =
              v.distinct (st.pool.nb - 1) i s.chunk (omega arith) (omega arith) s.at
                (t.at ∙ ap some (sym same)) in
            absurd (omega (arith, both))
        | inr e ↦ rw e t.not_out
      ]

      popped :
          (s : Spare capacity st u st.pool.items (st.pool.nb - 1))
          → 0 < st.pool.nb
          → FreeListValid capacity freelist_capacity
              (record st { pool = record { nb = st.pool.nb - 1; items = st.pool.items } })
              (insert s.chunk u)
      popped s pos = record {
        whole = λ a ia. elim (Bool-cases (s.chunk == a)) [
          | inl e ↦
              (let same : s.chunk ≡ a = ground arith in rw (sym same) (Full-same s.whole refl))
          | inr e ↦ Full-same (v.whole a (ground arith)) refl
        ];
        places = v.places;
        bound = (let b = v.bound in omega (arith, b));
        spare =
            λ i hi. (let t = v.spare i (omega arith) in Spare-write t refl refl (still s t pos hi));
        distinct = λ i j p hi hj. v.distinct i j p (omega arith) (omega arith);
        no_leak = λ q c e. elim (v.no_leak q c e) [
          | inl iu ↦ inl (ground arith)
          | inr (i, hi, ei) ↦ elim (Bool-cases (i == st.pool.nb - 1)) [
            | inl t ↦
                let at : i ≡ st.pool.nb - 1 = ground arith in
                let both : some s.chunk ≡ some q =
                  sym s.at ∙ ap (get_elem? st.pool.items) (sym at) ∙ ei in
                let same : s.chunk ≡ q = cc in inl (ground arith)
            | inr t ↦ inr (i, ground arith, ei)
          ]
        ];
      }

      fresh :
          st.pool.nb ≡ 0
          → m.block st ≢ null
          → FreeListValid capacity freelist_capacity
              (write st (m.block st) (some (m.contents st)))
              (insert (m.block st) u)
      fresh empty given = record {
        whole = λ a ia. elim (Bool-cases (m.block st == a)) [
          | inl e ↦ record {
            chunk = m.contents st;
            points = record {
              ne_null = (let same : m.block st ≡ a = ground arith in rw (sym same) given);
              holds = rw e refl;
            };
            places = im.places st;
          }
          | inr e ↦ Full-same (v.whole a (ground arith)) (rw e refl)
        ];
        places = v.places;
        bound = v.bound;
        spare = λ i hi. absurd (omega (arith, empty));
        distinct = v.distinct;
        no_leak = λ q c e. elim (Bool-cases (m.block st == q)) [
          | inl t ↦ inl (ground arith)
          | inr t ↦ elim (v.no_leak q c (rw t at e)) [
            | inl iu ↦ inl (ground arith)
            | inr (i, hi, ei) ↦ absurd (omega (arith, empty, hi))
          ]
        ];
      }
