-- ===== src/Bag/Iterate/Next.antt =====
-- `bag_iter_begin` and `bag_iter_next` yield the particles of the bag one after the other.
use optitrust.Prelude.{
  ℕ, zero, suc, ◌+◌, ◌<◌, ◌≡◌, refl, ap, ◌∙◌, true, false, Bool, List, [], ◌∷◌, ◌++◌, arith, ◌==◌,
  length, drop, Option, none, if◌then◌else◌,
}
use native.Mathlib.Numerals.{add-one}
use optitrust.Memory.{Ptr, null, State, pure, ◌>>=◌, Cmd}
use optitrust.Memory.Points.{not_null}
use optitrust.Memory.Returns
use optitrust.Memory.Returns.{Returns, returns, bind_assoc}
use optitrust.Memory.Allocator.{Allocator, IsAllocator, Region, SameOn}
use optitrust.Bag.{
  Iter, Item, bag_iter_load_chunk, bag_iter_init, bag_iter_get, bag_iter_begin_common,
  bag_iter_next, chunk_next,
}
use optitrust.Bag.Chain.{Cells, elems, Seg, nil, cons, Seg-same, size-eq}
use optitrust.Bag.Shape.{HasRoom}
use optitrust.Bag.Iterate.{ahead, ahead-nil, Apart, chunk_next-ahead, Current, Yields}
use optitrust.Bag.Iterate.Load.{load_chunk-ok, get-Yields}

length-drop :
    {P : Type 0} (i : ℕ) (ys : List P) {x : P} {zs : List P}
    → drop i ys ≡ x ∷ zs
    → length ys ≡ i + suc (length zs)
length-drop zero ys e = omega (arith, ap length e)
length-drop (suc i) [] e = cc
length-drop (suc i) (y ∷ ys) e = omega (arith, length-drop i ys e)

pub drop-suc :
    {P : Type 0} (i : ℕ) (ys : List P) {x : P} {zs : List P}
    → drop i ys ≡ x ∷ zs
    → drop (i + 1) ys ≡ zs
drop-suc zero [] e = cc
drop-suc zero (y ∷ ys) e = cc
drop-suc (suc i) [] e = cc
drop-suc (suc i) (y ∷ ys) e = rw add-one (rw add-one at (drop-suc i ys e))

module _ {Pool P : Type 0} {A : Allocator Pool P} {capacity : ℕ} (L : IsAllocator A capacity)
    (fuel : ℕ) (d : Bool) (left : Region) where
  -- At the end of a chunk: go to the next one, if there is one.
  abbrev after_chunk : (it : Iter) (r : Ptr) → Cmd Pool P (Iter × Option Item)
  after_chunk it r =
      if r == null
      then pure (it, none)
      else (do it' ← bag_iter_load_chunk A capacity it r; bag_iter_get A capacity fuel it')

  after_chunk-Yields :
      (st : State Pool P) (it : Iter) {r : Ptr} {cs : Cells P}
      → it.destructive ≡ d
      → Seg capacity st null r cs
      → Apart d left cs
      → L.Valid st (ahead d left cs)
      → length cs < fuel
      → Returns
          (λ r' st'. Yields L fuel d left (elems cs) r' st' × SameOn left st st')
          (after_chunk it r st)
  unfolding elems
  after_chunk-Yields st it mode nil apart v enough =
      returns ((refl, rw (← ahead-nil P d left) v), λ a ia. refl)
  after_chunk-Yields st it mode (cons {p = r} {q} {xs} {cs} e o s) apart v enough =
      rw (not_null e.points, load_chunk-ok L fuel d left st it r q xs e)
        (get-Yields L fuel d left st _ q xs cs (record {
          mode = mode;
          size = size-eq e;
          start = refl;
          holds = e;
          out = o;
          chain = s;
          apart = apart;
          valid = v;
          enough = enough;
        }))

  -- From a particle `bag_iter_next` moves to the one behind it, or returns NULL at the last one.
  -- A destructive iteration has then given back every chunk that it has left.
  pub bag_iter_next-Yields :
      (st : State Pool P) (it : Iter) (x : P) (xs : List P)
      → Current L fuel d left st it x xs
      → Returns
          (λ r st'. Yields L fuel d left xs r st' × SameOn left st st')
          (bag_iter_next A capacity fuel it st)
  unfolding bag_iter_next bag_iter_get
  bag_iter_next-Yields st it x xs c = at_end c.behind refl
    where
      at_end :
          (zs : List P)
          → c.behind ≡ zs
          → Returns
              (λ r st'. Yields L fuel d left xs r st' × SameOn left st st')
              (bag_iter_next A capacity fuel it st)
      at_end [] e =
          let n = length-drop it.index c.within c.here in
          let done : (it.index + 1 == it.size) ≡ true =
            let m = c.size in ground (arith, ap length e) in
          let steps : Returns
              (λ r st1.
                (r ≡ c.next)
                × L.Valid st1 (ahead d left c.cs)
                × SameOn (ahead true left c.cs) st st1)
              (chunk_next A capacity it.iter_chunk it.destructive st) =
            rw c.mode (
              chunk_next-ahead L d left st it.iter_chunk c.next c.within c.cs c.holds c.out c.apart
                c.valid) in
          rw (done, c.to_come ∙ ap (λ ys. ys ++ elems c.cs) e)
            (Returns.bind steps λ r st1 (to, v1, same1).
              let rest : Returns
                  (λ r' st'. Yields L fuel d left (elems c.cs) r' st' × SameOn left st1 st')
                  (after_chunk (record it { index = it.index + 1 }) r st1) =
                rw to (
                  after_chunk-Yields st1 (record it { index = it.index + 1 }) c.mode
                    (Seg-same c.chain λ a ia. same1 a (ground arith))
                    (λ a ia. c.apart a (ground arith)) v1 (let m = c.enough in omega arith)) in
              Returns.mono rest
                λ r' st2 (y, same2). (y, λ a ia. same2 a ia ∙ same1 a (ground arith)))
      at_end (z ∷ zs) e =
          let n = length-drop it.index c.within c.here in
          let more : (it.index + 1 == it.size) ≡ false =
            let m = c.size in ground (arith, ap length e) in
          let some_size : (it.size == 0) ≡ false = let m = c.size in ground arith in
          rw (more, some_size, c.to_come ∙ ap (λ ys. ys ++ elems c.cs) e)
            (returns (
              (
                refl,
                record {
                  next = c.next;
                  within = c.within;
                  behind = zs;
                  cs = c.cs;
                  mode = c.mode;
                  holds = c.holds;
                  out = c.out;
                  chain = c.chain;
                  size = c.size;
                  here = drop-suc it.index c.within c.here ∙ e;
                  to_come = refl;
                  apart = c.apart;
                  valid = c.valid;
                  enough = c.enough;
                },
              ),
              λ a ia. refl,
            ))

  -- `bag_iter_begin` and `bag_iter_destructive_begin` yield the first particle of the bag, or NULL if
  -- there is none.
  pub begin-Yields :
      (st : State Pool P) (bk : Ptr) {p : Ptr} {cs : Cells P}
      → Seg capacity st null p cs
      → HasRoom capacity cs
      → Apart d left cs
      → L.Valid st (ahead d left cs)
      → length cs < fuel
      → Returns
          (λ r st'. Yields L fuel d left (elems cs) r st' × SameOn left st st')
          (bag_iter_begin_common A capacity fuel (record { front = p; back = bk }) d st)
  unfolding bag_iter_begin_common bag_iter_init elems
  begin-Yields st bk nil room apart v enough = absurd room
  begin-Yields st bk (cons {p} {q} {xs} {cs} e o s) room apart v enough =
      rw (load_chunk-ok L fuel d left st _ p q xs e) (
        get-Yields L fuel d left st _ q xs cs (record {
          mode = refl;
          size = size-eq e;
          start = refl;
          holds = e;
          out = o;
          chain = s;
          apart = apart;
          valid = v;
          enough = enough;
        }))
