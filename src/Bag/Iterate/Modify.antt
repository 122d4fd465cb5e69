-- ===== src/Bag/Iterate/Modify.antt =====
-- `bag_iter_ho_chunk` with a body that writes its particle.
use optitrust.Prelude.{
  ℕ, zero, suc, ◌+◌, ◌<◌, ◌≡◌, refl, sym, ap, ◌∙◌, true, false, not, List, [], ◌∷◌, ◌++◌, arith,
  length, length-append, length-set, take, get_elem?, set, some, append_assoc, ◌==◌,
}
use optitrust.Memory.{Ptr, null, Chunk, State, write, pure, ◌>>=◌, ◌>>◌, Cmd, get_item, set_item}
use optitrust.Memory.Points.{load-ok, not_null, get_item-ok, set_item-ok, Points-write}
use optitrust.Memory.Returns
use optitrust.Memory.Returns.{Returns, returns}
use optitrust.Memory.Allocator.{Allocator, IsAllocator, Region, SameOn}
use optitrust.Bag.{Bag, Item, items_loop, chunk_loop, bag_iter_ho_chunk}
use optitrust.Bag.Chain.{
  Cells, has, elems, last_ptr, Holds, Seg, nil, cons, Holds-same, Seg-same, size-eq,
}
use optitrust.Bag.Shape.{IsBag, HasRoom, without}
use optitrust.Bag.Walk.{chunk_next-false}

-- A body that reads its particle `x` in the state `s` of the caller, writes the second part of `f s x`
-- to it and goes on with the first.
abbrev pub modify : {Pool P S : Type 0} → (S → P → S × P) → Item → S → Cmd Pool P S
modify f p s = do x ← get_item p.chunk p.index; set_item p.chunk p.index (f s x).1; pure (f s x).0

module _ {P S : Type 0} (f : S → P → S × P) where
  -- The state behind all particles, and the new particles.
  abbrev pub state_after : S → List P → S
  state_after s [] = s
  state_after s (x ∷ xs) = state_after (f s x).0 xs

  abbrev pub modified : S → List P → List P
  modified s [] = []
  modified s (x ∷ xs) = (f s x).1 ∷ modified (f s x).0 xs

  abbrev cells_modified : S → Cells P → Cells P
  cells_modified s [] = []
  cells_modified s ((p, xs) ∷ cs) = (p, modified s xs) ∷ cells_modified (state_after s xs) cs

  length-modified : (s : S) (xs : List P) → length (modified s xs) ≡ length xs
  length-modified s [] = refl
  length-modified s (x ∷ xs) = ap suc (length-modified (f s x).0 xs)

  state_after-append :
      (s : S) (xs ys : List P) → state_after s (xs ++ ys) ≡ state_after (state_after s xs) ys
  state_after-append s [] ys = refl
  state_after-append s (x ∷ xs) ys = state_after-append (f s x).0 xs ys

  modified-append :
      (s : S) (xs ys : List P)
      → modified s (xs ++ ys) ≡ modified s xs ++ modified (state_after s xs) ys
  modified-append s [] ys = refl
  modified-append s (x ∷ xs) ys = ap (λ zs. (f s x).1 ∷ zs) (modified-append (f s x).0 xs ys)

  elems-cells_modified :
      (s : S) (cs : Cells P) → elems (cells_modified s cs) ≡ modified s (elems cs)
  unfolding elems
  elems-cells_modified s [] = refl
  elems-cells_modified s ((p, xs) ∷ cs) =
      ap (λ ys. modified s xs ++ ys) (elems-cells_modified (state_after s xs) cs)
      ∙ sym (modified-append s xs (elems cs))

  has-cells_modified : (a : Ptr) (s : S) (cs : Cells P) → has a (cells_modified s cs) ≡ has a cs
  has-cells_modified a s [] = refl
  has-cells_modified a s ((p, xs) ∷ cs) = rw (has-cells_modified a (state_after s xs) cs) refl

  last_ptr-cells_modified :
      (d : Ptr) (s : S) (cs : Cells P) → last_ptr d (cells_modified s cs) ≡ last_ptr d cs
  unfolding last_ptr
  last_ptr-cells_modified d s [] = refl
  last_ptr-cells_modified d s ((p, xs) ∷ cs) = last_ptr-cells_modified p (state_after s xs) cs

  HasRoom-cells_modified :
      (capacity : ℕ) (s : S) (cs : Cells P)
      → HasRoom capacity cs
      → HasRoom capacity (cells_modified s cs)
  HasRoom-cells_modified capacity s [] r = r
  HasRoom-cells_modified capacity s ((p, xs) ∷ cs) r = rw (length-modified s xs) r

get_elem?-next :
    {P : Type 0} (n : ℕ) (items done : List P) (x : P) (rest : List P)
    → take n items ≡ done ++ x ∷ rest
    → get_elem? items (length done) ≡ some x
get_elem?-next zero items [] x rest e = cc
get_elem?-next zero items (z ∷ done) x rest e = cc
get_elem?-next (suc n) [] [] x rest e = cc
get_elem?-next (suc n) [] (z ∷ done) x rest e = cc
get_elem?-next (suc n) (y ∷ items) [] x rest e = cc
get_elem?-next (suc n) (y ∷ items) (z ∷ done) x rest e = get_elem?-next n items done x rest cc

take-set_next :
    {P : Type 0} (n : ℕ) (items done : List P) (y x : P) (rest : List P)
    → take n items ≡ done ++ x ∷ rest
    → take n (set items (length done) y) ≡ done ++ y ∷ rest
take-set_next zero items [] y x rest e = cc
take-set_next zero items (z ∷ done) y x rest e = cc
take-set_next (suc n) [] [] y x rest e = cc
take-set_next (suc n) [] (z ∷ done) y x rest e = cc
take-set_next (suc n) (w ∷ items) [] y x rest e = cc
take-set_next (suc n) (w ∷ items) (z ∷ done) y x rest e =
    let more = take-set_next n items done y x rest cc in cc

module _ {Pool P S : Type 0} {A : Allocator Pool P} {capacity : ℕ} (L : IsAllocator A capacity)
    (f : S → P → S × P) where
  -- The chunk at `c` holds `ys` now, and nothing else changed.
  record Written (u : Region) (c q : Ptr) (ys : List P) (st st' : State Pool P) : Type 0 where
    holds : Holds capacity st' c q ys
    valid : L.Valid st' u
    same : SameOn (λ a. not (c == a)) st st'

  items_loop-modified :
      (u : Region) (st : State Pool P) (c q : Ptr) (done xs : List P) (i : ℕ) (s : S)
      → L.Valid st u
      → u c ≡ true
      → Holds capacity st c q (done ++ xs)
      → i ≡ length done
      → Returns
          (λ s' st'. (s' ≡ state_after f s xs) × Written u c q (done ++ modified f s xs) st st')
          (items_loop A capacity (length xs) i c (modify f) s st)
  unfolding items_loop
  items_loop-modified u st c q done [] i s v iu e n =
      returns (refl, record { holds = e; valid = v; same = λ a ia. refl })
  items_loop-modified u st c q done (x ∷ xs) i s v iu e n =
      let y = (f s x).1 in
      let at = get_elem?-next e.chunk.size e.chunk.items done x xs e.contents in
      let d : Chunk P = record e.chunk { items = set e.chunk.items (length done) y } in
      let places = length-set e.chunk.items (length done) y ∙ e.places in
      let step : (done ++ y ∷ []) ++ xs ≡ done ++ y ∷ xs = append_assoc done (y ∷ []) xs in
      let held : Holds capacity (write st c (some d)) c q ((done ++ y ∷ []) ++ xs) = record {
        chunk = d;
        points = Points-write e.points d;
        places = places;
        leads = e.leads;
        fits = e.fits;
        contents = take-set_next e.chunk.size e.chunk.items done y x xs e.contents ∙ sym step;
      } in
      rw (n, get_item-ok e.points (length done) at, set_item-ok e.points (length done) y at)
        (Returns.mono
          (items_loop-modified u (write st c (some d)) c q (done ++ y ∷ []) xs (length done + 1)
            (f s x).0 (L.stable st u c d v iu places) iu held (sym (length-append done (y ∷ []))))
          λ s' st' (r, w). (
            r,
            record {
              holds = rw (← append_assoc done (y ∷ []) (modified f (f s x).0 xs)) w.holds;
              valid = w.valid;
              same = λ a ia. w.same a ia ∙ (let ne : (c == a) ≡ false = ground arith in rw ne refl);
            },
          ))

  chunk_loop-modified :
      (k : ℕ) (u : Region) (st : State Pool P) (s : S) {p : Ptr} {cs : Cells P}
      → Seg capacity st null p cs
      → ((a : Ptr) → has a cs ≡ true → u a ≡ true)
      → L.Valid st u
      → length cs < k
      → Returns
          (λ s' st'.
            (s' ≡ state_after f s (elems cs))
            × Seg capacity st' null p (cells_modified f s cs)
            × L.Valid st' u
            × SameOn (λ a. not (has a cs)) st st')
          (chunk_loop A capacity k p (modify f) false s st)
  unfolding chunk_loop elems
  chunk_loop-modified zero u st s seg owned v enough = absurd (omega arith)
  chunk_loop-modified (suc k) u st s nil owned v enough = returns (refl, nil, v, λ a ia. refl)
  chunk_loop-modified (suc k) u st s (cons {p} {q} {xs} {cs} e out seg) owned v enough =
      rw (not_null e.points, load-ok e.points, size-eq e)
        (Returns.bind (items_loop-modified u st p q [] xs 0 s v (owned p (ground arith)) e refl)
          λ s1 st1 (r, w).
            rw (chunk_next-false L st1 p q (modified f s xs) w.holds, r)
              (Returns.mono
                (chunk_loop-modified k u st1 (state_after f s xs)
                  (Seg-same seg λ a ia. w.same a (ground arith)) (λ a ia. owned a (ground arith))
                  w.valid (omega arith))
                λ s2 st2 (r2, seg2, v2, same2). (
                  r2 ∙ sym (state_after-append f s xs (elems cs)),
                  cons (Holds-same w.holds (same2 p (rw out refl)))
                      (rw (has-cells_modified f p (state_after f s xs) cs) out) seg2,
                  v2,
                  λ a ia. same2 a (ground arith) ∙ w.same a (ground arith),
                )))

  -- With more fuel than chunks and a body that reads its particle and then writes it:
  -- bag_iter_ho_chunk without destruction returns the state of its caller after the last
  -- particle. The bag is well formed and has the same chunks, its particles are those that the
  -- body wrote, in order, and nothing outside the bag changes.
  pub bag_iter_ho_chunk-modified :
      (fuel : ℕ) (st : State Pool P) (u : Region) (b : Bag) (cs : Cells P) (s : S)
      → L.Valid st u
      → IsBag capacity st u b cs
      → length cs < fuel
      → Returns
          (λ s' st'.
            (s' ≡ state_after f s (elems cs))
            × ((cs' : Cells P) × IsBag capacity st' u b cs'
                × (elems cs' ≡ modified f s (elems cs))
                × ((a : Ptr) → has a cs' ≡ has a cs))
            × L.Valid st' u
            × SameOn (without cs u) st st')
          (bag_iter_ho_chunk A capacity fuel b (modify f) false s st)
  unfolding bag_iter_ho_chunk
  bag_iter_ho_chunk-modified fuel st u b cs s v is enough =
      Returns.mono (chunk_loop-modified fuel u st s is.chain is.owned v enough)
        λ s' st' (r, seg, v', same). (
          r,
          (
            cells_modified f s cs,
            record {
              chain = seg;
              owned = λ a ia. is.owned a (rw (has-cells_modified f a s cs) at ia);
              back = is.back ∙ sym (last_ptr-cells_modified f null s cs);
              room = HasRoom-cells_modified f capacity s cs is.room;
            },
            elems-cells_modified f s cs,
            λ a. has-cells_modified f a s cs,
          ),
          v',
          λ a ia. same a (ground arith),
        )
