-- ===== src/Bag/Iterate.antt =====
-- What an iterator over a bag stands for, and the step from a chunk to the next.
pub mod Skip
pub mod Load
pub mod Next
pub mod Fold
pub mod Modify
use mathlib.Core.Path.{fun_ext}
use optitrust.Prelude.{
  ℕ, suc, ◌<◌, ◌≡◌, refl, sym, ap, ◌∙◌, true, false, Bool, not, ◌&&◌, ◌||◌, List, [], ◌∷◌, ◌++◌,
  arith, ◌==◌, length, Option, none, some, drop,
}
use optitrust.Memory.{Ptr, null, State, ok}
use optitrust.Memory.Points.{load-ok}
use optitrust.Memory.Returns
use optitrust.Memory.Returns.{Returns, returns}
use optitrust.Memory.Allocator.{Allocator, IsAllocator, Region, SameOn, remove}
use optitrust.Bag.{Bag, Iter, Item, bag_iter_item, chunk_next}
use optitrust.Bag.Chain.{Cells, has, elems, Holds, Seg}
use optitrust.Bag.Walk.{chunk_next-true, chunk_next-false}
use optitrust.Bag.Shape.{without}

-- The region while the chunks `cs` are still to come: a destructive iteration ends with `left`.
abbrev pub ahead : {P : Type 0} → Bool → Region → Cells P → Region
ahead true left cs a = has a cs || left a
ahead false left cs a = left a

-- A destructive iteration leaves none of the chunks, any other leaves them all.
abbrev pub Apart : {P : Type 0} → Bool → Region → Cells P → Type 0
Apart d left cs = (a : Ptr) → has a cs ≡ true → left a ≡ not d

module _ {Pool P : Type 0} {A : Allocator Pool P} {capacity : ℕ} (L : IsAllocator A capacity)
    (fuel : ℕ) (d : Bool) where
  -- The iterator stands at the particle `x`, and `xs` come behind it.
  pub record Current (left : Region) (st : State Pool P) (it : Iter) (x : P) (xs : List P)
      : Type 0 where
    pub next : Ptr
    pub within : List P
    pub behind : List P
    pub cs : Cells P
    pub mode : it.destructive ≡ d
    pub holds : Holds capacity st it.iter_chunk next within
    pub out : has it.iter_chunk cs ≡ false
    pub chain : Seg capacity st null next cs
    pub size : it.size ≡ length within
    pub here : drop it.index within ≡ x ∷ behind
    pub to_come : xs ≡ behind ++ elems cs
    pub apart : Apart d left ((it.iter_chunk, within) ∷ cs)
    pub valid : L.Valid st (ahead d left ((it.iter_chunk, within) ∷ cs))
    pub enough : suc (length cs) < fuel

  -- What `bag_iter_begin` and `bag_iter_next` return when the particles `xs` are still to come.
  abbrev pub Yields : Region → List P → Iter × Option Item → State Pool P → Type 0
  Yields left [] (it, r) st = (r ≡ none) × L.Valid st left
  Yields left (x ∷ xs) (it, r) st = (r ≡ some (bag_iter_item it)) × Current left st it x xs

pub ahead-nil : (P : Type 0) (d : Bool) (left : Region) → ahead {P = P} d left [] ≡ left
ahead-nil P true left = refl
ahead-nil P false left = refl

module _ {Pool P : Type 0} {A : Allocator Pool P} {capacity : ℕ} (L : IsAllocator A capacity) where
  ahead-remove :
      (left : Region) (c : Ptr) (ys : List P) (cs : Cells P)
      → has c cs ≡ false
      → Apart true left ((c, ys) ∷ cs)
      → remove c (ahead true left ((c, ys) ∷ cs)) ≡ ahead true left cs
  ahead-remove left c ys cs out apart = fun_ext λ a. ground (arith, apart a)

  -- `chunk_next` in both modes: what is ahead, and what is left in the end, is as before.
  pub chunk_next-ahead :
      (d : Bool) (left : Region) (st : State Pool P) (c q : Ptr) (ys : List P) (cs : Cells P)
      → Holds capacity st c q ys
      → has c cs ≡ false
      → Apart d left ((c, ys) ∷ cs)
      → L.Valid st (ahead d left ((c, ys) ∷ cs))
      → Returns
          (λ r st'. (r ≡ q) × L.Valid st' (ahead d left cs) × SameOn (ahead true left cs) st st')
          (chunk_next A capacity c d st)
  chunk_next-ahead true left st c q ys cs e out apart v =
      Returns.mono (chunk_next-true L st (ahead true left ((c, ys) ∷ cs)) c q ys v (ground arith) e)
        λ r st' (to, v', same). (
          to,
          rw (ahead-remove left c ys cs out apart) at v',
          λ a ia. same a (ground (arith, apart a)),
        )
  chunk_next-ahead false left st c q ys cs e out apart v =
      rw (chunk_next-false L st c q ys e) (returns (refl, v, λ a ia. refl))
