-- ===== src/Alloc/FreeList/Push.antt =====
-- `bag_chunk_free` with a free list.
use optitrust.Prelude.{
  ℕ, ◌+◌, ◌<◌, ◌≡◌, ◌≢◌, refl, sym, ap, ◌∙◌, true, false, true≢false, none, some, arith, ◌==◌, ltb,
  length, length-set, get_elem?, get_elem?-lt, get_elem?-set, set, Bool-cases, inl, inr,
}
use optitrust.Memory.{Ptr, State, write}
use optitrust.Memory.Points.{not_null, load-ok}
use optitrust.Memory.Returns.{Returns, returns}
use optitrust.Memory.Allocator.{Region, SameOn, remove}
use optitrust.Alloc.{Malloc, chunk_free}
use optitrust.Alloc.Naive.{Full-same}
use optitrust.Alloc.FreeList.{FreeList, custom_chunk_free}
use optitrust.Alloc.FreeList.Spare.{FreeListValid, differ, Spare-write}

module _ {P : Type 0} {capacity freelist_capacity : ℕ} where
  -- With a valid free list: bag_chunk_free returns for any chunk in use, which is then not in use any
  -- more. The other chunks in use are whole and hold what they held, and the free list stays valid: it
  -- has no more chunks than its capacity, each once and none of them in use, and no chunk is lost: every
  -- chunk that the memory still holds is in use or in the free list.
  pub free-FreeListValid :
      (st : State FreeList P) (u : Region) (p : Ptr) (m : Malloc FreeList P)
      → FreeListValid capacity freelist_capacity st u
      → u p ≡ true
      → Returns
          (λ _ st'.
            FreeListValid capacity freelist_capacity st' (remove p u) × SameOn (remove p u) st st')
          (custom_chunk_free m freelist_capacity p st)
  unfolding custom_chunk_free chunk_free
  free-FreeListValid st u p m v i = elim (Bool-cases (ltb st.pool.nb freelist_capacity)) [
    | inl e ↦
        let (x, ex) = get_elem?-lt st.pool.items st.pool.nb (rw (v.places) (ground arith)) in
        rw (e, ex) (returns (pushed (ground arith), λ a ia. refl))
    | inr e ↦
        let f = v.whole p i in
        rw (e, not_null f.points, load-ok f.points) (returns (freed, λ a ia. ground arith))
  ]
    where
      room : st.pool.nb < freelist_capacity → st.pool.nb < length st.pool.items
      room lt = rw (v.places) lt

      other :
          (j : ℕ)
          → st.pool.nb < freelist_capacity
          → (st.pool.nb == j) ≡ false
          → get_elem? (set st.pool.items st.pool.nb p) j ≡ get_elem? st.pool.items j
      other j lt ne = get_elem?-set st.pool.items st.pool.nb j p (room lt) ∙ rw ne refl

      last :
          (j : ℕ)
          → st.pool.nb < freelist_capacity
          → (st.pool.nb == j) ≡ true
          → get_elem? (set st.pool.items st.pool.nb p) j ≡ some p
      last j lt e = get_elem?-set st.pool.items st.pool.nb j p (room lt) ∙ rw e refl

      -- No spare chunk is the one that is given back.
      not_spare : (j : ℕ) (q : Ptr) → j < st.pool.nb → get_elem? st.pool.items j ≡ some q → q ≢ p
      not_spare j q hj e same =
          let s = v.spare j hj in
          let both : some s.chunk ≡ some q = sym s.at ∙ e in
          let at : s.chunk ≡ p = cc in true≢false (sym i ∙ ap u (sym at) ∙ s.not_out)

      pushed :
          st.pool.nb < freelist_capacity
          → FreeListValid capacity freelist_capacity
              (record st {
                pool = record { nb = st.pool.nb + 1; items = set st.pool.items st.pool.nb p };
              })
              (remove p u)
      pushed lt = record {
        whole = λ a ia. Full-same (v.whole a (ground arith)) refl;
        places = length-set st.pool.items st.pool.nb p ∙ v.places;
        bound = omega arith;
        spare = λ j hj. elim (Bool-cases (st.pool.nb == j)) [
          | inl e ↦ record {
            chunk = p;
            at = last j lt e;
            not_out = ground arith;
            whole = Full-same (v.whole p i) refl;
          }
          | inr e ↦
              (let s = v.spare j (ground arith) in
                let o = s.not_out in Spare-write s (other j lt e) refl (ground arith))
        ];
        distinct = λ j k q hj hk ej ek. elim (Bool-cases (st.pool.nb == j)) [
          | inl e ↦ elim (Bool-cases (st.pool.nb == k)) [
            | inl e' ↦ ground arith
            | inr e' ↦
                let both : some p ≡ some q = sym (last j lt e) ∙ ej in
                let at : q ≡ p = cc in
                absurd (not_spare k q (ground arith) (sym (other k lt e') ∙ ek) at)
          ]
          | inr e ↦ elim (Bool-cases (st.pool.nb == k)) [
            | inl e' ↦
                let both : some p ≡ some q = sym (last k lt e') ∙ ek in
                let at : q ≡ p = cc in
                absurd (not_spare j q (ground arith) (sym (other j lt e) ∙ ej) at)
            | inr e' ↦
                v.distinct j k q (ground arith) (ground arith) (sym (other j lt e) ∙ ej)
                  (sym (other k lt e') ∙ ek)
          ]
        ];
        no_leak = λ q c e. elim (v.no_leak q c e) [
          | inl iu ↦ elim (Bool-cases (p == q)) [
            | inl t ↦
                let same : p ≡ q = ground arith in
                inr (st.pool.nb, omega arith, last st.pool.nb lt (ground arith) ∙ ap some same)
            | inr t ↦ inl (ground arith)
          ]
          | inr (j, hj, ej) ↦ inr (j, omega arith, other j lt (ground arith) ∙ ej)
        ];
      }

      freed : FreeListValid capacity freelist_capacity (write st p none) (remove p u)
      freed = record {
        whole = λ a ia. Full-same (v.whole a (ground arith)) (ground arith);
        places = v.places;
        bound = v.bound;
        spare = λ j hj.
            (let s = v.spare j hj in
              let ne = differ u p s.chunk i s.not_out in
              let o = s.not_out in Spare-write s refl (rw ne refl) (ground arith));
        distinct = v.distinct;
        no_leak = λ q c e. elim (Bool-cases (p == q)) [
          | inl t ↦ (let h = rw t at e in cc)
          | inr t ↦ elim (v.no_leak q c (rw t at e)) [ inl iu ↦ inl (ground arith) | inr w ↦ inr w ]
        ];
      }
