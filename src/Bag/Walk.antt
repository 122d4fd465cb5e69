-- ===== src/Bag/Walk.antt =====
-- The loops that walk a whole chain: `bag_size` and `bag_free`.
use optitrust.Prelude.{
  ℕ, zero, suc, ◌+◌, ◌^◌, ◌<◌, ◌≡◌, refl, ap, ◌∙◌, true, false, List, ◌∷◌, arith, length,
  length-append, ltb,
}
use mathlib.Core.Path.{fun_ext}
use optitrust.Memory.{Ptr, null, State, ok}
use optitrust.Memory.Points.{not_null, load-ok}
use optitrust.Memory.Returns
use optitrust.Memory.Returns.{Returns, returns}
use optitrust.Memory.Allocator.{Allocator, IsAllocator, Region, SameOn, remove}
use optitrust.Bag.{Bag, size_loop, bag_size, chunk_next, free_loop, bag_free}
use optitrust.Bag.Chain.{Cells, has, elems, Holds, Seg, nil, cons, Seg-same, size-eq}
use optitrust.Bag.Shape.{IsBag, without}

module _ {Pool P : Type 0} (A : Allocator Pool P) (capacity : ℕ) (st : State Pool P) where
  size_loop-elems :
      (k acc : ℕ) {p : Ptr} {cs : Cells P}
      → Seg capacity st null p cs
      → length cs < k
      → acc + length (elems cs) < 2 ^ 31
      → size_loop A capacity k p acc st ≡ ok (acc + length (elems cs)) st
  unfolding size_loop elems
  size_loop-elems zero acc s fuel small = absurd (omega arith)
  size_loop-elems (suc k) acc nil fuel small = ap (λ n. ok n st) (omega arith)
  size_loop-elems (suc k) acc (cons {xs} {cs} e out s) fuel small =
      let n = size-eq e in
      let total = length-append xs (elems cs) in
      let fits : ltb (acc + e.chunk.size) (2 ^ 31) ≡ true = ground arith in
      rw (not_null e.points, load-ok e.points, fits, e.leads)
        (size_loop-elems k (acc + e.chunk.size) s (omega arith) (omega arith)
          ∙ ap (λ m. ok m st) (omega arith))

  -- With more fuel than the bag has chunks, `bag_size` is the number of particles of a well-formed bag,
  -- if that is an `int`, and changes nothing.
  pub bag_size-elems :
      (fuel : ℕ) (u : Region) (b : Bag) (cs : Cells P)
      → IsBag capacity st u b cs
      → length cs < fuel
      → length (elems cs) < 2 ^ 31
      → bag_size A capacity fuel b st ≡ ok (length (elems cs)) st
  unfolding bag_size
  bag_size-elems fuel u b cs is enough small =
      size_loop-elems fuel 0 is.chain enough (omega arith) ∙ ap (λ m. ok m st) (omega arith)

without-cons :
    {P : Type 0} (p : Ptr) (xs : List P) (cs : Cells P) (u : Region)
    → without cs (remove p u) ≡ without ((p, xs) ∷ cs) u
without-cons p xs cs u = fun_ext λ a. ground arith

module _ {Pool P : Type 0} {A : Allocator Pool P} {capacity : ℕ} (L : IsAllocator A capacity) where
  -- The next chunk, the old one given back.
  pub chunk_next-true :
      (st : State Pool P) (u : Region) (c q : Ptr) (xs : List P)
      → L.Valid st u
      → u c ≡ true
      → Holds capacity st c q xs
      → Returns
          (λ r st'. (r ≡ q) × L.Valid st' (remove c u) × SameOn (remove c u) st st')
          (chunk_next A capacity c true st)
  unfolding chunk_next
  chunk_next-true st u c q xs v i e =
      rw (load-ok e.points)
        (Returns.bind (L.free-Valid st u c v i) λ _ st' (v', same). returns (e.leads, v', same))

  pub chunk_next-false :
      (st : State Pool P) (c q : Ptr) (xs : List P)
      → Holds capacity st c q xs
      → chunk_next A capacity c false st ≡ ok q st
  unfolding chunk_next
  chunk_next-false st c q xs e = rw (load-ok e.points, e.leads)

  free_loop-without :
      (k : ℕ) (st : State Pool P) (u : Region) {p : Ptr} {cs : Cells P}
      → L.Valid st u
      → Seg capacity st null p cs
      → ((a : Ptr) → has a cs ≡ true → u a ≡ true)
      → length cs < k
      → Returns
          (λ _ st'. L.Valid st' (without cs u) × SameOn (without cs u) st st')
          (free_loop A capacity k p st)
  unfolding free_loop
  free_loop-without zero st u v s owned fuel = absurd (omega arith)
  free_loop-without (suc k) st u v nil owned fuel = returns (v, λ a ia. refl)
  free_loop-without (suc k) st u v (cons {p} {q} {xs} {cs} e out s) owned fuel =
      rw (not_null e.points) (
        Returns.bind (chunk_next-true st u p q xs v (owned p (ground arith)) e)
          λ r st1 (to, v1, same1).
            let own : (a : Ptr) → has a cs ≡ true → remove p u a ≡ true =
              λ a ia. ground (arith, owned a) in
            rw to (
              Returns.mono
                (free_loop-without k st1 (remove p u) v1 (Seg-same s λ a ia. same1 a (own a ia)) own
                  (omega arith))
                λ _ st2 (v2, same2). (
                  rw (without-cons p xs cs u) at v2,
                  λ a ia. same2 a (ground arith) ∙ same1 a (ground arith),
                )))

  -- With more fuel than the bag has chunks, `bag_free` returns, gives back every chunk of a well-formed
  -- bag, each once, and touches nothing else.
  pub bag_free-without :
      (fuel : ℕ) (st : State Pool P) (u : Region) (b : Bag) (cs : Cells P)
      → L.Valid st u
      → IsBag capacity st u b cs
      → length cs < fuel
      → Returns
          (λ _ st'. L.Valid st' (without cs u) × SameOn (without cs u) st st')
          (bag_free A capacity fuel b st)
  unfolding bag_free
  bag_free-without fuel st u b cs v is enough =
      free_loop-without fuel st u v is.chain is.owned enough
