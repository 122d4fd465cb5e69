-- ===== src/Bag/Iterate/Load.antt =====
-- What `bag_iter_get` yields from an iterator that has a new chunk, empty or not.
use optitrust.Prelude.{
  ℕ, suc, ◌<◌, ◌≡◌, refl, ◌∙◌, true, false, Bool, ◌||◌, List, [], ◌∷◌, ◌++◌, arith, ◌==◌, length,
  Option, none, some, Bool-cases, inl, inr, if◌then◌else◌,
}
use optitrust.Memory.{Ptr, null, State, ok, pure, ◌>>=◌, Cmd}
use optitrust.Memory.Points.{load-ok, not_null}
use optitrust.Memory.Returns
use optitrust.Memory.Returns.{Returns, returns, bind_assoc}
use optitrust.Memory.Allocator.{Allocator, IsAllocator, Region, SameOn}
use optitrust.Bag.{
  Iter, Item, bag_iter_item, skip_loop, bag_iter_load_chunk, bag_iter_skip_empty_chunks,
  bag_iter_get,
}
use optitrust.Bag.Chain.{Cells, has, elems, Holds, Seg, nil, cons, size-eq}
use optitrust.Bag.Iterate.{ahead, ahead-nil, Apart, Current, Yields}
use optitrust.Bag.Iterate.Skip.{
  drop_empty, elems-drop_empty, has-drop_empty, length-drop_empty, Skipped, skip_loop-Skipped,
}

abbrev HeadIsFull : {P : Type 0} → Cells P → Type 0
HeadIsFull [] = Unit
HeadIsFull ((_, []) ∷ cs) = ⊥
HeadIsFull ((_, x ∷ xs) ∷ cs) = Unit

drop_empty-HeadIsFull : {P : Type 0} (cs : Cells P) → HeadIsFull (drop_empty cs)
drop_empty-HeadIsFull [] = tt
drop_empty-HeadIsFull ((p, []) ∷ cs) = drop_empty-HeadIsFull cs
drop_empty-HeadIsFull ((p, x ∷ xs) ∷ cs) = tt

not-has-drop_empty :
    {P : Type 0} (a : Ptr) (cs : Cells P) → has a cs ≡ false → has a (drop_empty cs) ≡ false
not-has-drop_empty a cs out = elim (Bool-cases (has a (drop_empty cs))) [
  | inl i ↦ ground (arith, has-drop_empty a cs)
  | inr o ↦ o
]

module _ {Pool P : Type 0} {A : Allocator Pool P} {capacity : ℕ} (L : IsAllocator A capacity)
    (fuel : ℕ) (d : Bool) (left : Region) where
  -- An iterator that was just loaded with a chunk.
  pub record Loaded (st : State Pool P) (it : Iter) (q : Ptr) (ys : List P) (cs : Cells P)
      : Type 0 where
    pub mode : it.destructive ≡ d
    pub size : it.size ≡ length ys
    pub start : it.index ≡ 0
    pub holds : Holds capacity st it.iter_chunk q ys
    pub out : has it.iter_chunk cs ≡ false
    pub chain : Seg capacity st null q cs
    pub apart : Apart d left ((it.iter_chunk, ys) ∷ cs)
    pub valid : L.Valid st (ahead d left ((it.iter_chunk, ys) ∷ cs))
    pub enough : suc (length cs) < fuel

  Loaded-Current :
      (st : State Pool P) (it : Iter) (q : Ptr) (y : P) (ys : List P) (cs : Cells P)
      → Loaded st it q (y ∷ ys) cs
      → Current L fuel d left st it y (ys ++ elems cs)
  Loaded-Current st it q y ys cs l = record {
    next = q;
    within = y ∷ ys;
    behind = ys;
    cs = cs;
    mode = l.mode;
    holds = l.holds;
    out = l.out;
    chain = l.chain;
    size = l.size;
    here = rw l.start;
    to_come = refl;
    apart = l.apart;
    valid = l.valid;
    enough = l.enough;
  }

  -- What follows the skipping loop in `bag_iter_get`, when the first chunk `c` was empty.
  abbrev after_skip : (c : Ptr) (it : Iter) (r : Ptr) → Cmd Pool P (Iter × Option Item)
  after_skip c it r = do
    it' ←
        (if r == c
          then pure it
          else if r == null
          then pure (record it { iter_chunk = null; size = 0; index = 0 })
          else bag_iter_load_chunk A capacity it r)
    if (it'.iter_chunk == null) || (it'.size == 0)
        then pure (it', none)
        else pure (it', some (bag_iter_item it'))

  pub load_chunk-ok :
      (st : State Pool P) (it : Iter) (c q : Ptr) (xs : List P) (e : Holds capacity st c q xs)
      → bag_iter_load_chunk A capacity it c st
        ≡ ok (record it { iter_chunk = c; size = e.chunk.size; index = 0 }) st
  unfolding bag_iter_load_chunk
  load_chunk-ok st it c q xs e = rw (load-ok e.points)

  after_skip-Yields :
      (st : State Pool P) (c : Ptr) (it : Iter) {r : Ptr} {cs : Cells P}
      → it.destructive ≡ d
      → (c == null) ≡ false
      → Seg capacity st null r cs
      → HeadIsFull cs
      → has c cs ≡ false
      → Apart d left cs
      → L.Valid st (ahead d left cs)
      → length cs < fuel
      → Returns
          (λ r' st'. Yields L fuel d left (elems cs) r' st' × SameOn left st st')
          (after_skip c it r st)
  unfolding elems
  after_skip-Yields st c it mode ne nil full out apart v enough =
      let ne' : (null == c) ≡ false = ground arith in
      rw ne' (returns ((refl, rw (← ahead-nil P d left) v), λ a ia. refl))
  after_skip-Yields st c it mode ne (cons {xs = []} e o s) full out apart v enough = absurd full
  after_skip-Yields st c it mode ne (cons {p = r} {q} {xs = x ∷ xs} {cs} e o s) full out apart v
        enough =
      let other : (r == c) ≡ false = ground arith in
      let n = size-eq e in
      let some_size : (e.chunk.size == 0) ≡ false = ground arith in
      rw
        (other, not_null e.points, load_chunk-ok st it r q (x ∷ xs) e, not_null e.points, some_size)
        (returns (
          (
            refl,
            Loaded-Current st _ q x xs cs (record {
              mode = mode;
              size = n;
              start = refl;
              holds = e;
              out = o;
              chain = s;
              apart = apart;
              valid = v;
              enough = enough;
            }),
          ),
          λ a ia. refl,
        ))

  pub get-Yields :
      (st : State Pool P) (it : Iter) (q : Ptr) (ys : List P) (cs : Cells P)
      → Loaded st it q ys cs
      → Returns
          (λ r' st'. Yields L fuel d left (ys ++ elems cs) r' st' × SameOn left st st')
          (bag_iter_get A capacity fuel it st)
  unfolding bag_iter_get bag_iter_skip_empty_chunks
  get-Yields st it q (y ∷ ys) cs l =
      let n = l.size in
      let some_size : (it.size == 0) ≡ false = ground arith in
      rw some_size (returns ((refl, Loaded-Current st it q y ys cs l), λ a ia. refl))
  get-Yields st it q [] cs l =
      let n = l.size in
      let no_size : (it.size == 0) ≡ true = ground arith in
      let skips : Returns (Skipped L d left ((it.iter_chunk, []) ∷ cs) st)
          (skip_loop A capacity fuel it.iter_chunk it.destructive st) =
        rw l.mode (
          skip_loop-Skipped L d left fuel st (cons l.holds l.out l.chain) l.apart l.valid
            l.enough) in
      rw no_size (
        bind_assoc _ _ skips λ r st1 k.
          let out = not-has-drop_empty it.iter_chunk cs l.out in
          let rest : Returns
              (λ r' st'. Yields L fuel d left (elems (drop_empty cs)) r' st' × SameOn left st1 st')
              (after_skip it.iter_chunk it r st1) =
            after_skip-Yields st1 it.iter_chunk it l.mode (not_null l.holds.points) k.chain
              (drop_empty-HeadIsFull cs) out
              (λ a ia. l.apart a (ground (arith, has-drop_empty a cs))) k.valid
              (length-drop_empty fuel cs (let m = l.enough in omega arith)) in
          rw (← elems-drop_empty cs)
            (Returns.mono rest λ r' st2 (y, same). (y, λ a ia. same a ia ∙ k.same a ia)))
