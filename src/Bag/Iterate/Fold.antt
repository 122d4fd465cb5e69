-- ===== src/Bag/Iterate/Fold.antt =====
-- `bag_iter_ho_basic` for any body, and `bag_iter_ho_basic` and `bag_iter_ho_chunk` for one that reads.
use mathlib.Core.Path.{fun_ext}
use mathlib.Core.List.{foldl, foldl-append}
use optitrust.Prelude.{
  ℕ, zero, suc, ◌+◌, ◌<◌, ◌≡◌, refl, sym, ◌∙◌, true, false, Bool, List, [], ◌∷◌, arith, length,
  drop, take, get_elem?, Option, some,
}
use optitrust.Memory.{Ptr, null, State, ok, pure, ◌>>=◌, Cmd, get_item}
use optitrust.Memory.Points.{load-ok, not_null, get_item-ok}
use optitrust.Memory.Returns
use optitrust.Memory.Returns.{Returns, returns}
use optitrust.Memory.Allocator.{Allocator, IsAllocator, Region, SameOn}
use optitrust.Bag.{
  Bag, Iter, Item, bag_iter_item, ho_loop, bag_iter_ho_basic, items_loop, chunk_loop,
  bag_iter_ho_chunk,
}
use optitrust.Bag.Chain.{Cells, has, elems, Holds, Seg, nil, cons, Seg-same, size-eq}
use optitrust.Bag.Shape.{IsBag, without}
use optitrust.Bag.Iterate.{ahead, ahead-nil, chunk_next-ahead, Apart, Current, Yields}
use optitrust.Bag.Iterate.Next.{drop-suc, bag_iter_next-Yields, begin-Yields}

-- What is left of the region after an iteration.
abbrev pub left_of : {P : Type 0} → Bool → Cells P → Region → Region
left_of true cs u = without cs u
left_of false cs u = u

pub left_of-ahead :
    {P : Type 0} (d : Bool) (cs : Cells P) (u : Region)
    → ((a : Ptr) → has a cs ≡ true → u a ≡ true)
    → ahead d (left_of d cs u) cs ≡ u
left_of-ahead true cs u owned = fun_ext λ a. ground (arith, owned a)
left_of-ahead false cs u owned = refl

pub left_of-Apart :
    {P : Type 0} (d : Bool) (cs : Cells P) (u : Region)
    → ((a : Ptr) → has a cs ≡ true → u a ≡ true)
    → Apart d (left_of d cs u) cs
left_of-Apart true cs u owned a ia = rw ia
left_of-Apart false cs u owned a ia = owned a ia

get_elem?-take :
    {P : Type 0} (i n : ℕ) (items ys : List P) {x : P} {zs : List P}
    → take n items ≡ ys
    → drop i ys ≡ x ∷ zs
    → get_elem? items i ≡ some x
get_elem?-take zero zero items ys e h = cc
get_elem?-take zero (suc n) [] ys e h = cc
get_elem?-take zero (suc n) (z ∷ items) ys e h = cc
get_elem?-take (suc i) n items [] e h = cc
get_elem?-take (suc i) zero items (y ∷ ys) e h = cc
get_elem?-take (suc i) (suc n) [] (y ∷ ys) e h = cc
get_elem?-take (suc i) (suc n) (z ∷ items) (y ∷ ys) e h = get_elem?-take i n items ys (cc) h

module _ {Pool P : Type 0} {A : Allocator Pool P} {capacity : ℕ} (L : IsAllocator A capacity)
    (fuel : ℕ) (d : Bool) where
  -- `it` points at the particle that it stands at.
  pub Current-item :
      (left : Region) (st : State Pool P) (it : Iter) (x : P) (xs : List P)
      → Current L fuel d left st it x xs
      → get_item it.iter_chunk it.index st ≡ ok x st
  Current-item left st it x xs c =
      let e = c.holds in
      get_item-ok e.points it.index
        (get_elem?-take it.index e.chunk.size e.chunk.items c.within e.contents c.here)

  module _ {S : Type 0} (body : Item → S → Cmd Pool P S)
      (J : Region → S → List P → State Pool P → Type 0)
      (step : (left : Region) (st : State Pool P) (it : Iter) (x : P) (xs : List P) (s : S)
        → Current L fuel d left st it x xs
        → J left s (x ∷ xs) st
        → Returns
            (λ s' st'. (left' : Region) × Current L fuel d left' st' it x xs × J left' s' xs st')
            (body (bag_iter_item it) s st))
      (keep : (left : Region) (s : S) (xs : List P) (st st' : State Pool P)
        → J left s xs st
        → SameOn left st st'
        → J left s xs st') where
    -- An invariant of the body over the particles that are still to come holds at the end for none.
    pub ho_loop_inv :
        (k : ℕ) (left : Region) (st : State Pool P) (xs : List P) (it : Iter) (r : Option Item)
        (s : S)
        → length xs < k
        → Yields L fuel d left xs (it, r) st
        → J left s xs st
        → Returns
            (λ s' st'. (left' : Region) × L.Valid st' left' × J left' s' [] st')
            (ho_loop A capacity k fuel body (it, r) s st)
    unfolding ho_loop
    ho_loop_inv zero left st xs it r s enough y j = absurd (omega arith)
    ho_loop_inv (suc k) left st [] it r s enough (e, v) j = rw e (returns (left, v, j))
    ho_loop_inv (suc k) left st (x ∷ xs) it r s enough (e, c) j = rw e (
        Returns.bind (step left st it x xs s c j) λ s' st1 (left1, c1, j1).
          Returns.bind (bag_iter_next-Yields L fuel d left1 st1 it x xs c1)
            λ (it', r') st2 (y, same).
              ho_loop_inv k left1 st2 xs it' r' s' (omega arith) y
                (keep left1 s' xs st1 st2 j1 same))

-- A body that reads its particle, and goes on with `f` of the state of the caller and the particle.
abbrev pub visit : {Pool P S : Type 0} → (S → P → S) → Item → S → Cmd Pool P S
visit f p s = do x ← get_item p.chunk p.index; pure (f s x)

module _ {Pool P S : Type 0} {A : Allocator Pool P} {capacity : ℕ} (L : IsAllocator A capacity)
    (f : S → P → S) where
  -- With enough fuel and a body that only reads its particle: `bag_iter_ho_basic` returns the left fold
  -- of the body over the particles of a well-formed bag, front chunk first. A destructive iteration gives
  -- back every chunk of the bag and leaves the rest of the region as it is; any other leaves the whole
  -- region as it is.
  pub bag_iter_ho_basic-foldl :
      (rounds fuel : ℕ) (st : State Pool P) (u : Region) (b : Bag) (cs : Cells P) (d : Bool) (s : S)
      → L.Valid st u
      → IsBag capacity st u b cs
      → length cs < fuel
      → length (elems cs) < rounds
      → Returns
          (λ s' st'.
            (s' ≡ foldl f s (elems cs))
            × L.Valid st' (left_of d cs u)
            × SameOn (left_of d cs u) st st')
          (bag_iter_ho_basic A capacity rounds fuel b (visit f) d s st)
  unfolding bag_iter_ho_basic
  bag_iter_ho_basic-foldl rounds fuel st u b cs d s v is enough bound =
      let left = left_of d cs u in
      Returns.bind
        (begin-Yields L fuel d left st b.back is.chain is.room (left_of-Apart d cs u is.owned)
          (rw (left_of-ahead d cs u is.owned) v) enough)
        λ (it, r) st1 (y, same).
          Returns.mono
            (ho_loop_inv L fuel d (visit f)
              (λ left' s' xs st'.
                (left' ≡ left) × (foldl f s' xs ≡ foldl f s (elems cs)) × SameOn left st st')
              (λ left' st' it' x xs s' c j.
                rw (Current-item L fuel d left' st' it' x xs c) (returns (left', c, j)))
              (λ left' s' xs st' st'' (e, g, k) same'. (e, g, λ a ia. same' a (rw e ia) ∙ k a ia))
              rounds left st1 (elems cs) it r s bound y (refl, refl, same))
            λ s' st' (left', v', (e, g, k)). (g, rw (← e) v', k)

  items_loop-foldl :
      (st : State Pool P) (c q : Ptr) (ys : List P) (left i : ℕ) (zs : List P) (s : S)
      → Holds capacity st c q ys
      → drop i ys ≡ zs
      → left ≡ length zs
      → items_loop A capacity left i c (visit f) s st ≡ ok (foldl f s zs) st
  unfolding items_loop
  items_loop-foldl st c q ys zero i [] s e h n = refl
  items_loop-foldl st c q ys zero i (z ∷ zs) s e h n = absurd (omega arith)
  items_loop-foldl st c q ys (suc left) i [] s e h n = absurd (omega arith)
  items_loop-foldl st c q ys (suc left) i (z ∷ zs) s e h n =
      rw (get_item-ok e.points i (get_elem?-take i e.chunk.size e.chunk.items ys e.contents h))
        (items_loop-foldl st c q ys left (i + 1) zs (f s z) e (drop-suc i ys h) (omega arith))

  chunk_loop-foldl :
      (k : ℕ) (d : Bool) (left : Region) (st : State Pool P) (s : S) {p : Ptr} {cs : Cells P}
      → Seg capacity st null p cs
      → Apart d left cs
      → L.Valid st (ahead d left cs)
      → length cs < k
      → Returns
          (λ s' st'. (s' ≡ foldl f s (elems cs)) × L.Valid st' left × SameOn left st st')
          (chunk_loop A capacity k p (visit f) d s st)
  unfolding chunk_loop elems
  chunk_loop-foldl zero d left st s seg apart v enough = absurd (omega arith)
  chunk_loop-foldl (suc k) d left st s nil apart v enough =
      returns (refl, rw (← ahead-nil P d left) v, λ a ia. refl)
  chunk_loop-foldl (suc k) d left st s (cons {p} {q} {xs} {cs} e out seg) apart v enough =
      rw
        (
          not_null e.points,
          load-ok e.points,
          items_loop-foldl st p q xs e.chunk.size 0 xs s e refl (size-eq e),
        )
        (Returns.bind (chunk_next-ahead L d left st p q xs cs e out apart v)
          λ r st1 (to, v1, same1). rw to (
            Returns.mono
              (chunk_loop-foldl k d left st1 (foldl f s xs)
                (Seg-same seg λ a ia. same1 a (ground arith)) (λ a ia. apart a (ground arith)) v1
                (omega arith))
              λ s' st2 (g, v2, same2). (
                g ∙ sym (foldl-append f s xs (elems cs)),
                v2,
                λ a ia. same2 a ia ∙ same1 a (ground arith),
              )))

  -- With more fuel than chunks and a body that only reads its particle: `bag_iter_ho_chunk` returns the
  -- left fold of the body over the particles of a well-formed bag, front chunk first. A destructive
  -- iteration gives back every chunk of the bag and leaves the rest of the region as it is; any other
  -- leaves the whole region as it is.
  pub bag_iter_ho_chunk-foldl :
      (fuel : ℕ) (st : State Pool P) (u : Region) (b : Bag) (cs : Cells P) (d : Bool) (s : S)
      → L.Valid st u
      → IsBag capacity st u b cs
      → length cs < fuel
      → Returns
          (λ s' st'.
            (s' ≡ foldl f s (elems cs))
            × L.Valid st' (left_of d cs u)
            × SameOn (left_of d cs u) st st')
          (bag_iter_ho_chunk A capacity fuel b (visit f) d s st)
  unfolding bag_iter_ho_chunk
  bag_iter_ho_chunk-foldl fuel st u b cs d s v is enough =
      chunk_loop-foldl fuel d (left_of d cs u) st s is.chain (left_of-Apart d cs u is.owned)
        (rw (left_of-ahead d cs u is.owned) v) enough
