-- ===== src/Bag/Iterate/Skip.antt =====
-- The empty chunks that an iterator passes over.
use optitrust.Prelude.{
  ℕ, zero, suc, ◌<◌, ◌≡◌, refl, ◌∙◌, true, false, Bool, [], ◌∷◌, arith, ◌==◌, length,
}
use optitrust.Memory.{Ptr, null, State}
use optitrust.Memory.Points.{load-ok, not_null}
use optitrust.Memory.Returns
use optitrust.Memory.Returns.{Returns, returns}
use optitrust.Memory.Allocator.{Allocator, IsAllocator, Region, SameOn}
use optitrust.Bag.{skip_loop}
use optitrust.Bag.Chain.{Cells, has, elems, Seg, nil, cons, Seg-same, size-eq}
use optitrust.Bag.Iterate.{ahead, Apart, chunk_next-ahead}

-- A chain without its leading empty chunks.
abbrev pub drop_empty : {P : Type 0} → Cells P → Cells P
drop_empty [] = []
drop_empty ((p, []) ∷ cs) = drop_empty cs
drop_empty ((p, x ∷ xs) ∷ cs) = (p, x ∷ xs) ∷ cs

pub elems-drop_empty : {P : Type 0} (cs : Cells P) → elems (drop_empty cs) ≡ elems cs
unfolding elems
elems-drop_empty [] = refl
elems-drop_empty ((p, []) ∷ cs) = elems-drop_empty cs
elems-drop_empty ((p, x ∷ xs) ∷ cs) = refl

pub has-drop_empty :
    {P : Type 0} (a : Ptr) (cs : Cells P) → has a (drop_empty cs) ≡ true → has a cs ≡ true
has-drop_empty a [] i = i
has-drop_empty a ((p, []) ∷ cs) i = ground (arith, has-drop_empty a cs)
has-drop_empty a ((p, x ∷ xs) ∷ cs) i = i

pub length-drop_empty :
    {P : Type 0} (n : ℕ) (cs : Cells P) → length cs < n → length (drop_empty cs) < n
length-drop_empty n [] h = h
length-drop_empty n ((p, []) ∷ cs) h = length-drop_empty n cs (omega arith)
length-drop_empty n ((p, x ∷ xs) ∷ cs) h = h

module _ {Pool P : Type 0} {A : Allocator Pool P} {capacity : ℕ} (L : IsAllocator A capacity)
    (d : Bool) (left : Region) where
  -- The chain `cs` from `r` is what is still ahead.
  pub record Skipped (cs : Cells P) (st : State Pool P) (r : Ptr) (st' : State Pool P)
      : Type 0 where
    pub chain : Seg capacity st' null r (drop_empty cs)
    pub valid : L.Valid st' (ahead d left (drop_empty cs))
    pub same : SameOn left st st'

  pub skip_loop-Skipped :
      (k : ℕ) (st : State Pool P) {p : Ptr} {cs : Cells P}
      → Seg capacity st null p cs
      → Apart d left cs
      → L.Valid st (ahead d left cs)
      → length cs < k
      → Returns (Skipped cs st) (skip_loop A capacity k p d st)
  unfolding skip_loop
  skip_loop-Skipped zero st s apart v enough = absurd (omega arith)
  skip_loop-Skipped (suc k) st nil apart v enough =
      returns (record { chain = nil; valid = v; same = λ a ia. refl })
  skip_loop-Skipped (suc k) st (cons {p} {q} {xs = []} {cs} e out s) apart v enough =
      let n = size-eq e in
      let zero_size : (e.chunk.size == 0) ≡ true = ground arith in
      rw (not_null e.points, load-ok e.points, zero_size)
        (Returns.bind (chunk_next-ahead L d left st p q [] cs e out apart v)
          λ r st1 (to, v1, same1). rw to (
            Returns.mono
              (skip_loop-Skipped k st1 (Seg-same s λ a ia. same1 a (ground arith))
                (λ a ia. apart a (ground arith)) v1 (omega arith))
              λ r' st2 k. record {
                chain = k.chain;
                valid = k.valid;
                same = λ a ia. k.same a ia ∙ same1 a (ground arith);
              }))
  skip_loop-Skipped (suc k) st (cons {p} {xs = x ∷ xs} e out s) apart v enough =
      let n = size-eq e in
      let some_size : (e.chunk.size == 0) ≡ false = ground arith in
      rw (not_null e.points, load-ok e.points, some_size)
        (returns (record { chain = cons e out s; valid = v; same = λ a ia. refl }))
